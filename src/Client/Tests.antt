-- ===== src/Client/Tests.antt =====
-- Runs of the update client on the network of Client/Fixtures.antt.
use swandns.Prelude.{◌≡◌, refl, [], ◌∷◌, Result, ok, err, returned}
use swandns.Prelude.Text.{eq_ignore_ascii_case}
use swandns.Messages.{UpsertRecordRequest, RecordReply}
use swandns.Net.{v4, v6}
use swandns.Dns.Fixtures.{
  ZoneName, loopback, loopback6, loopback6-IsSegments, net, names, names-IsNames,
}
use swandns.Prelude.Text.{strip_dot}
use swandns.Sqlite.{run, answers}
use swandns.Sqlite.Memory.{Database, memory, memory-IsSqlite}
use swandns.Repository.{upsert}
use swandns.Repository.Fixtures.{alone, empty, nothing, empty-Implements}
use swandns.Dns.{RecordType}
use swandns.Authority.{other, primary}
use swandns.Authority.Split.{SplitAuthority, from_lookup, split_search}
use swandns.Authority.Split.Fixtures.{library}
use swandns.Authority.Database.{lookup_of}
use swandns.Client.Served.{message_is_served}
use swandns.Util.{get_iface_addr}
use swandns.Client.{
  ClientError, records_not_updated, client_upsert, update_message, server_url_of, update_record,
  update_records,
}
use swandns.Client.Fixtures.{
  host, retry, retry-IsRetry, World, taken, network, www, cfg, message, two_failures, all_return,
}
use swandns.Client.Retrying.{FirstSuccess, update_record-FirstSuccess}
use swandns.Client.Updates.{failures, world_after_all, result, update_records_lem}

client_runs :
    (update_record net retry network host cfg www two_failures
      ≡ (returned (ok (taken message)), (0, message ∷ [])))
    × (update_records net retry network host cfg (0, [])
        ≡ (returned (err (records_not_updated 1)), (0, message ∷ [])))
unfolding update_records update_record update_message get_iface_addr eq_ignore_ascii_case
    swandns.Net.Writing.show_ip swandns.Net.Digits.put_octet
client_runs = (refl, refl)

update_record-FirstSuccess_example :
    (r : Result ClientError RecordReply) × (w' : World) × (update_record net retry network host cfg
        www two_failures
      ≡ (returned r, w'))
    × FirstSuccess
        (client_upsert network
          (server_url_of cfg www)
          (update_message net "www.example.com" (v4 (loopback 3))))
        5
        two_failures
        (r, w')
unfolding get_iface_addr eq_ignore_ascii_case
update_record-FirstSuccess_example =
    update_record-FirstSuccess net retry network host cfg www (v4 (loopback 3)) two_failures
      retry-IsRetry refl

update_records_lem_example : update_records net retry network host cfg two_failures ≡ (
  result net retry network host cfg (failures net retry network host cfg cfg.records two_failures),
  world_after_all net retry network host cfg cfg.records two_failures,
)
update_records_lem_example = update_records_lem net retry network host cfg two_failures all_return

abbrev served : UpsertRecordRequest
served = update_message net "foo.example.com" (v6 loopback6)

abbrev stored : Database
stored = (upsert memory 100 alone served empty).1

-- a zone with no static records
abbrev zone : SplitAuthority names library
zone = record {
  origin = ZoneName.root;
  in_memory_authority = [];
  sqlite_authority = record { origin = ZoneName.root; zone_type = primary };
  forward_authority = 0;
}

message_is_served_example :
    (split_search memory net names library zone
      (record { name = ZoneName.foo; query_type = RecordType.aaaa })
      tt
      stored).0
    ≡ returned
        (ok (from_lookup (lookup_of RecordType.aaaa ZoneName.foo 30 (v6 loopback6) ZoneName.foo)))
unfolding upsert answers names-IsNames update_message swandns.Net.Writing.show_ip
    swandns.Net.Digits.put_octet run
message_is_served_example =
    message_is_served memory memory-IsSqlite names names-IsNames library zone tt (other 0) 100
      (v6 loopback6) "foo.example.com" alone empty nothing _ _ ZoneName.foo ZoneName.foo refl
      loopback6-IsSegments (λ k. k) empty-Implements refl (unfold strip_dot in refl) refl refl refl
      refl
