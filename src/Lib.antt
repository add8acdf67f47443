-- ===== src/Lib.antt =====
-- swandns: a DNS server for a home network. Machines publish records over gRPC into a table of
-- SQLite, and the server answers DNS queries from static records, that table, or upstream servers.
--
-- The parts, their sources, and the files that model them:
--
-- - Messages.antt: the messages of the protocol (src/proto/swandns.rs). The field `data` of a record
--   is `content` here.
-- - Sqlite.antt: the table `records` (the migration in src/util.rs) and the SQL statements of
--   src/record_repository.rs as functions on lists of rows. SQLite, rusqlite and the clock are the
--   parameter `Engine`, with the laws `IsSqlite`: a call may fail at any time, and has no effect
--   then; a query returns its rows in any order. Sqlite/Memory.antt is a concrete engine.
-- - Repository.antt: `RecordRepository` (src/record_repository.rs). Repository/Entries.antt is the
--   abstract registry, a function from name and type to an entry; Refinement, Upserting, Listing
--   and History relate the operations to it. `upsert` makes two calls, and what other tasks do
--   between them is a function on the connection.
-- - RpcServer.antt: the handlers of src/rpc_server/ping.rs and src/rpc_server/records.rs.
--   RpcServer/Stream.antt: the stream of `list`, as a step relation of the sending task, a channel of
--   four places and the client; Ending bounds its steps, and Listed puts it behind the table.
-- - Grpc.antt: the traits and servers that are generated in src/proto/swandns.rs;
--   Grpc/PingOptions.antt and Grpc/RecordsOptions.antt are the options of the servers, and
--   Grpc/PingClient.antt and Grpc/RecordsClient.antt the clients. tonic, prost and HTTP are the
--   parameters `Tonic`, `Channel` and `ClientLibrary`, with the laws `IsTonic` and `IsConnected` of
--   Grpc/Laws.antt. Grpc/Run.antt is `RpcServer::run` (src/rpc_server/mod.rs), which puts the
--   handlers into the servers, over tonic's server as the parameter `Router` with the law
--   `IsRouter`. What the settings of a server and of a client let through, `MayDecode` and
--   `MayEncode`, is a parameter for each side and direction. The extension `GrpcMethod` of a
--   request, which only interceptors see, is left out.
-- - Net.antt: the addresses of `std::net`. What is modelled takes their texts as an argument,
--   `AddressText`; Net/Reading.antt and Net/Writing.antt are `FromStr` and `Display` of the standard
--   library, and Net/Text.antt is the `AddressText` that they make. Bounds has the ranges of the
--   numbers of an address; Hex, Groups, Runs, Compressed, Embedded and RoundTrip lead to the round
--   trip of the texts.
-- - Dns.antt: what the program uses of hickory. Names and types of records with their texts are the
--   parameter `Names` with the laws `IsNames`.
-- - Util.antt: src/util.rs. What the machine says of its interfaces is the parameter `Host`.
--   Util/Database.antt opens and migrates the database file: the file system is the parameter
--   `Files`, and rusqlite_migration is `Migrator` with the laws `IsMigrator`.
-- - Config.antt: src/config.rs. The crate figment is the parameter `FigmentLibrary`, with the laws
--   `IsFigment` of Config/Layers.antt.
-- - Client.antt: src/client.rs. The server and the network are a world that an action changes; the
--   crate tokio_retry is the parameter `RetryLibrary` with the laws `IsRetry`.
-- - Authority.antt, Authority/Split.antt: src/sqlite_authority.rs and src/split_authority.rs. The
--   in-memory and the forwarding authority are the parameter `Library`.
-- - DnsServer.antt: src/dns_server.rs. How authorities and catalogs are made is the parameter
--   `Builder`, with the laws `IsInMemory` of in-memory authorities (DnsServer/Static.antt) and
--   `IsCatalog` of catalogs (DnsServer/Served.antt), and the sockets are `Sockets`.
-- - Bin.antt: the loop of src/bin/client.rs and the tasks of src/bin/server.rs. What the clock, the
--   schedule and the shutdown do in a round is a list of rounds. Bin/ServerMain.antt and
--   Bin/ClientMain.antt are the two `main` functions, with the parsed arguments, and what
--   tokio_graceful_shutdown makes of the tasks as a parameter.
--
-- They are put together as in the program: the handlers and the SQLite authority share the
-- repository; the split authority asks the SQLite authority; the catalog has a split authority for
-- each zone; the client's messages are those that the handlers take.
--
-- A panic (`unwrap`) is the value `panicked` of `Outcome`. Numbers are natural numbers: a
-- time-to-live keeps to 32 bits by hypothesis where it is stored, the numbers of addresses and
-- ports are bounded by hypothesis where they are printed, and differences of times are integers.
-- Every loop of the program goes through a list, so there is no fuel; the loop of the update client
-- is followed for as many rounds as are listed.
--
-- Not modelled: logging, the parsing of the programs' arguments, the wire format of the messages,
-- the readiness of the generated servers (always ready), build and packaging, and the parameters
-- above.
pub mod Prelude
pub mod Messages
pub mod Sqlite
pub mod Repository
pub mod RpcServer
pub mod Grpc
pub mod Net
pub mod Dns
pub mod Util
pub mod Config
pub mod Client
pub mod Authority
pub mod DnsServer
pub mod Bin
