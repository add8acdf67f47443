-- ===== src/Bin/Fixtures.antt =====
-- A host with its sockets, for the tests.
use swandns.Prelude.{[], Result, ok, Outcome, returned}
use swandns.Net.{v4, SocketAddr}
use swandns.Dns.Fixtures.{loopback}
use swandns.Util.{Error, Host}
use swandns.DnsServer.{Sockets}
use swandns.DnsServer.Fixtures.{Zones}

abbrev pub host : Host
host = record {
  local_ip = ok (v4 (loopback 3));
  local_ipv6 = ok (v4 (loopback 3));
  interfaces = ok [];
}

-- sockets that always work
abbrev pub sockets : Sockets Zones
sockets = record {
  bind_udp = ok;
  bind_tcp = ok;
  block_until_done = λ catalog udp_addr tcp_addr tcp_request_timeout. ok tt;
}

-- a server that ends at once
abbrev pub serve : SocketAddr → Outcome (Result Error (Unit {0}))
serve addr = returned (ok tt)
