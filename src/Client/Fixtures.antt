-- ===== src/Client/Fixtures.antt =====
-- An update client on a network that fails for a while, and a retry library that never waits, for
-- the tests.
use swandns.Prelude.{
  ℕ, zero, suc, String, refl, ap, none, some, List, [], ◌∷◌, Result, ok, err, true, pos,
}
use swandns.Prelude.Text.{eq_ignore_ascii_case}
use swandns.Messages.{UpsertRecordRequest, RecordReply}
use swandns.Net.{v4}
use swandns.Dns.Fixtures.{loopback, net}
use swandns.Util.{io_error, Host, get_iface_addr}
use swandns.Config.{ClientConfig, ClientRecordConfig}
use swandns.Client.{
  ClientError, transport, Action, RetryLibrary, IsRetry, Network, update_record, update_records,
}
use swandns.Client.Updates.{AllReturn}

abbrev pub host : Host
host = record { local_ip = ok (v4 (loopback 3)); local_ipv6 = err (io_error 0); interfaces = ok [] }

abbrev pub attempt_again :
    {W A : Type 0}
    → (W → Result ClientError A × W)
    → Result ClientError A × W
    → Result ClientError A × W
attempt_again rest (ok a, w) = (ok a, w)
attempt_again rest (err e, w) = rest w

abbrev pub spawn : (W A : Type 0) → List ℕ → Action W A → Action W A
spawn W A [] act w = act w
spawn W A (d ∷ ds) act w = attempt_again (spawn W A ds act) (act w)

abbrev pub retry : RetryLibrary
retry = record { fibonacci = λ first n. first; jitter = λ delay. delay; spawn = spawn }

pub retry-IsRetry : IsRetry retry
retry-IsRetry = record {
  last = λ W A act w. refl;
  succeeds = λ W A d ds act w w' a e. ap (attempt_again (spawn W A ds act)) e;
  fails = λ W A d ds act w w' x e. ap (attempt_again (spawn W A ds act)) e;
}

-- how many connections are going to fail, and the messages that the server took
abbrev pub World : Type 0
World = ℕ × List UpsertRecordRequest

abbrev pub connect : String → Action World (Unit {0})
connect url (zero, log) = (ok tt, (zero, log))
connect url (suc n, log) = (err (transport 111), (n, log))

abbrev pub taken : UpsertRecordRequest → RecordReply
taken m = record {
  name = m.name;
  type = m.type;
  content = m.value;
  ttl = m.ttl;
  healthy = true;
  created_at = pos 0;
  updated_at = pos 0;
}

abbrev pub network : Network World
network = record {
  Channel = Unit;
  connect = connect;
  upsert = λ _ m w. (ok (taken m), (w.0, m ∷ w.1));
}

abbrev pub www : ClientRecordConfig
www = record { server_url = none; name = "www.example.com"; bind = none; protocol = some "ipv4" }

-- the host has no IPv6 address
abbrev pub unreachable : ClientRecordConfig
unreachable = record www { protocol = some "ipv6" }

abbrev pub cfg : ClientConfig
cfg = record {
  default_server_url = none;
  default_bind = none;
  default_protocol = none;
  records = unreachable ∷ www ∷ [];
}

abbrev pub message : UpsertRecordRequest
message = record { name = "www.example.com"; type = "A"; value = "127.0.0.3"; ttl = 30 }

abbrev pub two_failures : World
two_failures = (2, [])

pub all_return : AllReturn net retry network host cfg cfg.records two_failures
unfolding update_records update_record get_iface_addr eq_ignore_ascii_case
all_return = (tt, (tt, tt))
