-- ===== src/Grpc/Tests.antt =====
-- Clients connected to servers over the tonic of Grpc/Fixtures.antt. The world is the number of
-- records.
use swandns.Prelude.{
  [], ◌∷◌, arith, Result, ℕ, zero, suc, ◌+◌, ◌≡◌, refl, true, pos, List, ok, err, returned,
}
use swandns.Messages.{UpsertRecordRequest, RecordReply, FindUniqueRecordRequest}
use swandns.RpcServer.{Status, unimplemented, ping, Reply}
use swandns.RpcServer.Handlers.{missing}
use swandns.Grpc.{
  HttpRequest, PingServer, RecordsServer, no_settings, Ping, Records, new_ping_server,
  new_records_server, ping_call, records_call,
}
use swandns.Grpc.PingClient.{PingClient, send_ping}
use swandns.Grpc.RecordsClient.{
  RecordsClient, send_find_unique, send_upsert, send_list, send_delete,
}
use swandns.Grpc.Laws.{Streamed}
use swandns.Grpc.Options.{ServerOption, settings_after}
use swandns.Grpc.PingOptions
use swandns.Grpc.RecordsOptions
use swandns.Grpc.Configured.{configured_lem}
use swandns.Sqlite.Memory.{Database, memory, memory-IsSqlite}
use swandns.Repository
use swandns.Repository.Entries.{merge}
use swandns.Repository.Table
use swandns.Repository.Refinement.{new_entry}
use swandns.Repository.Fixtures.{alone, newer, one, only, one-Implements}
use swandns.RpcServer.{upsert}
use swandns.RpcServer.Stream.{Stream, running}
use swandns.Grpc.Run.{services, upsert_over_grpc}
use swandns.Grpc.Calls.{records_stubs, ping_stub}
use swandns.Grpc.Fixtures.{
  Body, tonic, tonic-IsTonic, connection, connection-IsConnected, router, router-IsRouter,
}

abbrev reply : RecordReply
reply = record {
  name = "foo.example.com";
  type = "A";
  content = "127.0.0.3";
  ttl = 30;
  created_at = pos 0;
  updated_at = pos 0;
  healthy = true;
}

abbrev find_unique : FindUniqueRecordRequest → ℕ → Reply RecordReply × ℕ
find_unique request zero = (returned (err missing), zero)
find_unique request (suc n) = (returned (ok reply), suc n)

abbrev records : Records ℕ
records = record {
  ListStream = List RecordReply;
  find_unique = find_unique;
  upsert = λ request n. (returned (ok reply), n + 1);
  list = λ request n. (returned (ok (reply ∷ [])), n);
  delete = λ request n. (returned (ok tt), 0);
}

abbrev pinged : Ping ℕ
pinged = record { ping = λ request n. (ping request, n) }

abbrev key : FindUniqueRecordRequest
key = record { name = "foo.example.com"; type = "A" }

abbrev written : UpsertRecordRequest
written = record { name = "foo.example.com"; type = "A"; value = "127.0.0.3"; ttl = 30 }

abbrev records_server : RecordsServer ℕ Unit
records_server = new_records_server tonic records

abbrev ping_server : PingServer ℕ Unit
ping_server = new_ping_server tonic pinged

abbrev records_client : RecordsClient tonic ℕ
records_client = record { inner = connection (records_call tonic records_server) }

abbrev ping_client : PingClient tonic ℕ
ping_client = record { inner = connection (ping_call tonic ping_server) }

records_stubs_example :
    (send_find_unique tonic records_client key 0 ≡ (err missing, 0))
    × (send_upsert tonic records_client written 0 ≡ (ok reply, 1))
    × (send_delete tonic records_client key 0 ≡ (ok tt, 0))
    × ((r : Result Status (tonic.Streaming RecordReply)) × Streamed tonic
          (List RecordReply)
          RecordReply
          (ok (reply ∷ []))
          r
        × (send_list tonic records_client tt 0 ≡ (r, 0)))
unfolding new_records_server
records_stubs_example =
    records_stubs tonic tonic-IsTonic records_client records_server key key written 0 0 1 0 0
      (err missing) (ok reply) (ok tt) (ok (reply ∷ [])) (connection-IsConnected _)
      (tt, tt, λ b e. (tt, tt), refl) (tt, tt, λ b e. (tt, tt), refl)
      (tt, tt, λ b e. (tt, tt), refl) tt tt refl

ping_stub_example :
    (send_ping tonic ping_client (record { message = "hi" }) 0
      ≡ (ok (record { message = "pong" }), 0))
    × ((s : Status) × (s.code ≡ unimplemented)
        × (send_upsert tonic (record { inner = ping_client.inner }) written 0 ≡ (err s, 0)))
unfolding ping new_ping_server
ping_stub_example =
    ping_stub tonic tonic-IsTonic ping_client ping_server (record { message = "hi" }) written 0 0
      (ok (record { message = "pong" })) (connection-IsConnected _) (tt, tt, λ b e. (tt, tt), refl)
      tt

abbrev options : List (ServerOption Unit)
options =
    ServerOption.max_decoding_message_size 1024
    ∷ ServerOption.accept_compressed tt
    ∷ ServerOption.max_decoding_message_size 2048
    ∷ []

abbrev sent : HttpRequest Body
sent = record { path = "/swandns.Records/Upsert"; body = Body.of_upsert_request written }

configured_lem_example :
    (ping_call tonic
        (PingOptions.clone tonic (PingOptions.configure tonic options ping_server))
        sent
        0
      ≡ ping_call tonic
          (record { inner = pinged; settings = settings_after tonic (no_settings tonic) options })
          sent
          0)
    × (records_call tonic
          (RecordsOptions.clone tonic (RecordsOptions.configure tonic options records_server))
          sent
          0
        ≡ records_call tonic
            (record {
              inner = records;
              settings = settings_after tonic (no_settings tonic) options;
            })
            sent
            0)
configured_lem_example = configured_lem tonic options pinged records sent 0

-- no listing: the stream is not read
abbrev unread : Stream
unread = record { pending = []; queue = []; received = []; sender = running; is_open = true }

abbrev server_client : RecordsClient tonic Database
server_client = record {
  inner = connection (router.service (services tonic memory 160 alone unread));
}

upsert_over_grpc_example : send_upsert tonic server_client newer one ≡ (
  ok (Table.reply memory true (merge (new_entry 160 newer) (only newer.name newer.type))),
  (upsert memory 160 alone newer one).1,
)
unfolding Repository.find_unique services
upsert_over_grpc_example =
    upsert_over_grpc tonic tonic-IsTonic memory memory-IsSqlite router server_client 160 newer alone
      unread one only _ router-IsRouter (connection-IsConnected _) tt tt tt tt (omega arith) refl
      one-Implements refl refl
