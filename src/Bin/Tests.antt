-- ===== src/Bin/Tests.antt =====
-- Rounds of the update loop, and a server whose configuration cannot be read.
use swandns.Prelude.{
  ℕ, ◌+◌, ◌≡◌, refl, true, false, none, some, List, [], ◌∷◌, pos, negsuc, Result, ok, err, Outcome,
  returned,
}
use swandns.Messages.{RecordReply}
use swandns.Net.{IpAddr, v4, SocketAddr}
use swandns.Dns.Fixtures.{net, names, names-IsNames}
use swandns.Util.{Error, bad_name, parse_ip, render_record_name}
use swandns.Config.{ServerConfig}
use swandns.Client.{ClientError, records_not_updated}
use swandns.Authority.Split.Fixtures.{library}
use swandns.DnsServer.{run}
use swandns.DnsServer.Fixtures.{builder, forward, zone, bad_zone}
use swandns.Bin.{Round, running, done, out_of_range, update_in_loop, start_dns_server}
use swandns.Bin.Fixtures.{host, sockets, serve}
use swandns.Bin.Schedule.{IsQuiet, update_in_loop_lem}
use swandns.Bin.Addresses.{IsAddressOf, Listen, same_address}
use swandns.Bin.Tasks.{bad_zone_is_silent}

-- an update that counts itself, and fails
abbrev update : ℕ → Outcome (Result ClientError (List RecordReply)) × ℕ
update n = (returned (err (records_not_updated 1)), n + 1)

abbrev round : Round ℕ
round = record {
  is_shutdown_requested = false;
  cancelled = none;
  until_next = some (pos 60000000000);
  is_sleep_cancelled = false;
}

abbrev last : Round ℕ
last = record round { is_shutdown_requested = true }

abbrev late : Round ℕ
late = record round { until_next = some (negsuc 0) }

round-IsQuiet : IsQuiet round
round-IsQuiet = record {
  not_requested = refl;
  not_cancelled = refl;
  scheduled = (60000000000, refl);
  sleeps = refl;
}

-- A schedule that gives a time in the past ends the loop with an error, after the update.
late-round : update_in_loop update (round ∷ late ∷ round ∷ []) 0 ≡ (out_of_range, 2)
unfolding update_in_loop
late-round = refl

update_in_loop_lem_example :
    (update_in_loop update (round ∷ round ∷ []) 0 ≡ (running, 2))
    × (update_in_loop update (round ∷ round ∷ last ∷ round ∷ []) 0 ≡ (done, 2))
update_in_loop_lem_example =
    update_in_loop_lem update (round ∷ round ∷ []) (round ∷ []) last 0
      (λ n. (err (records_not_updated 1), refl)) (round-IsQuiet, (round-IsQuiet, tt)) refl

abbrev cfg : ServerConfig
cfg = record {
  data_dir = "/var/lib/swandns";
  db_file = "swandns.db";
  bind = none;
  dns_port = 1053;
  api_port = 8080;
  nameservers = [];
  zones = zone ∷ bad_zone ∷ [];
}

bad_zone_is_silent_example :
    (run net names library builder host sockets cfg ≡ returned (err (bad_name "nowhere")))
    × (start_dns_server net names library builder host sockets cfg false ≡ returned (ok tt))
unfolding render_record_name parse_ip swandns.Net.Reading.parse_ip swandns.Net.Digits.read_number
bad_zone_is_silent_example =
    bad_zone_is_silent net names names-IsNames library builder forward (λ name servers. refl) host
      sockets cfg (bad_name "nowhere") refl

-- The host has no interface `eth1`.
abbrev elsewhere : ServerConfig
elsewhere = record cfg { bind = some "eth1" }

same_address_example :
    (found : Outcome (Result Error IpAddr)) × IsAddressOf host (some "eth1") found
    × Listen names library builder host serve elsewhere false found
same_address_example = same_address names library builder host serve elsewhere false
