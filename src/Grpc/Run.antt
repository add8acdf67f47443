-- ===== src/Grpc/Run.antt =====
-- `RpcServer::run` (src/rpc_server/mod.rs): the services that it puts together, over the handlers
-- of RpcServer.antt, and the server that serves them. tonic's `Server` is a parameter.
use swandns.Prelude.{
  String, Option, none, some, [], ◌∷◌, ◌==◌, if◌then◌else◌, Result, Outcome, ◌^◌, ◌<◌, ◌≡◌, refl,
  ap, true, ok, returned, List,
}
use swandns.Messages.{UpsertRecordRequest, RecordReply}
use swandns.Sqlite.{Row, Engine, IsSqlite}
use swandns.Repository.Entries.{Registry, merge}
use swandns.Repository.Table.{reply}
use swandns.Repository.Refinement.{Implements, key_query, new_entry}
use swandns.Repository.Upserting.{insert_of}
use swandns.Net.{SocketAddr}
use swandns.Util.{Error}
use swandns.RpcServer.{Status, Reply, ping}
use swandns.RpcServer
use swandns.RpcServer.Handlers.{upsert_returns}
use swandns.RpcServer.Stream.{Stream}
use swandns.Grpc.{
  Service, no_settings, Tonic, Ping, Records, new_ping_server, new_records_server, ping_call,
  records_call,
}
use swandns.Grpc.RecordsClient.{RecordsClient, send_upsert}
use swandns.Grpc.Paths.{path_of, NoSlash}
use swandns.Grpc.Laws.{IsTonic, IsConnected}
use swandns.Grpc.Calls.{handled}

-- `MyPing`
abbrev pub my_ping : {W : Type 0} → Ping W
my_ping = record { ping = λ request w. (ping request, w) }

-- `MyRecords`, for calls at the time `now`, with what other tasks do meanwhile. The task that
-- `list` spawns makes its listing at some later time, for which `listed` stands.
unfoldable pub my_records : (db : Engine) → db.Time → (db.Conn → db.Conn) → Stream → Records db.Conn
my_records db now between listed = record {
  ListStream = Stream;
  find_unique = RpcServer.find_unique db;
  upsert = RpcServer.upsert db now between;
  list = λ request c. (returned (ok listed), c);
  delete = RpcServer.delete db;
}

-- `NamedService::NAME` of the two services
abbrev pub ping_name : String
ping_name = "swandns.Ping"

abbrev pub records_name : String
records_name = "swandns.Records"

-- `Server::builder().add_service(…)`: the service of all, and `serve`
pub record Router (tonic : Tonic) (W : Type 0) : Type 0 where
  pub service : List (String × Service tonic.Bytes W) → Service tonic.Bytes W
  pub serve : Service tonic.Bytes W → SocketAddr → Outcome (Result Error (Unit {0}))

-- the first service of a name
abbrev pub service_named {ℓ} : {S : Type ℓ} → String → List (String × S) → Option S
service_named name [] = none
service_named name ((other, s) ∷ services) =
    if other == name then some s else service_named name services

-- A request goes to the service that its path names.
pub record IsRouter (tonic : Tonic) {W : Type 0} (router : Router tonic W) : Type 0 where
  pub routed :
      (services : List (String × Service tonic.Bytes W)) (name method : String) (body : tonic.Bytes)
      (w : W) (service : Service tonic.Bytes W)
      → NoSlash method
      → service_named name services ≡ some service
      → router.service services (record { path = path_of name method; body = body }) w
        ≡ service (record { path = path_of name method; body = body }) w

module _ (tonic : Tonic) (db : Engine) where
  -- the services that are added, over the handlers at one time
  unfoldable pub services :
      db.Time → (db.Conn → db.Conn) → Stream → List (String × Service tonic.Bytes db.Conn)
  services now between listed =
      (ping_name, ping_call tonic (new_ping_server tonic my_ping))
      ∷ (
        records_name,
        records_call tonic (new_records_server tonic (my_records db now between listed)),
      )
      ∷ []

  -- `RpcServer::run`
  unfoldable pub run :
      Router tonic db.Conn
      → db.Time
      → (db.Conn → db.Conn)
      → Stream
      → SocketAddr
      → Outcome (Result Error (Unit {0}))
  unfolding services
  run router now between listed addr =
      router.serve (router.service (services now between listed)) addr

-- the reply to an Upsert: the entry that is written
abbrev pub written : (db : Engine) → db.Time → UpsertRecordRequest → Registry db.Time → RecordReply
written db now request reg =
    reply db true (merge (new_entry now request) (reg request.name request.type))

module _ (tonic : Tonic) (h : IsTonic tonic) (db : Engine) (sql : IsSqlite db) where
  -- Over tonic and SQLite, an Upsert with a time-to-live of 32 bits that a client sends to the
  -- server's router returns the written entry, when the engine executes both calls, the other tasks
  -- leave the table alone between them, and client and server let the request and that reply
  -- through.
  pub upsert_over_grpc :
      (router : Router tonic db.Conn) (client : RecordsClient tonic db.Conn) (now : db.Time)
      (request : UpsertRecordRequest) (between : db.Conn → db.Conn) (listed : Stream) (c : db.Conn)
      (reg : Registry db.Time) (rs : List (Row db.Value))
      → IsRouter tonic router
      → IsConnected tonic client.inner (router.service (services tonic db now between listed))
      → client.inner.MayEncode (tonic.upsert_request.encode request)
      → tonic.MayDecode (no_settings tonic) (tonic.upsert_request.encode request)
      → tonic.MayEncode (no_settings tonic) (tonic.record_reply.encode (written db now request reg))
      → client.inner.MayDecode (tonic.record_reply.encode (written db now request reg))
      → request.ttl < 2 ^ 32
      → db.rows (between (db.execute (insert_of db now request) c).1)
        ≡ db.rows (db.execute (insert_of db now request) c).1
      → Implements db c reg
      → (db.execute (insert_of db now request) c).0 ≡ ok tt
      → (db.query
          (key_query db request.name request.type)
          (between (db.execute (insert_of db now request) c).1)).0
        ≡ ok rs
      → send_upsert tonic client request c
        ≡ (ok (written db now request reg), (RpcServer.upsert db now between request c).1)
  unfolding services send_upsert records_call new_records_server my_records
  upsert_over_grpc router client now request between listed c reg rs routes connected may_send
        may_read may_reply may_receive fits quiet k done found =
      handled tonic h client.inner _ _ tonic.upsert_request tonic.record_reply
        (RpcServer.upsert db now between) _ request c (RpcServer.upsert db now between request c).1
        _ connected h.upsert_request h.record_reply
        (λ body.
          routes.routed (services tonic db now between listed) records_name "Upsert" body c
            (records_call tonic (new_records_server tonic (my_records db now between listed)))
            (refl, (refl, (refl, (refl, (refl, (refl, tt)))))) refl)
        (
          may_send,
          may_read,
          λ r e.
              let same : written db now request reg ≡ r = cc in
              (rw same at may_reply, rw same at may_receive),
          ap (λ x. (x, (RpcServer.upsert db now between request c).1))
              (upsert_returns db sql now request between c reg rs fits quiet k done found),
        )
