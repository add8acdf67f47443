-- ===== src/Bin/Tasks.antt =====
-- What `swandns` (src/bin/server.rs) reports of a DNS server that could not start.
use swandns.Prelude.{◌≡◌, false, List, ok, err, returned}
use swandns.Net.{AddressText}
use swandns.Dns.{Names, IsNames}
use swandns.Util.{Error, Host}
use swandns.Config.{ServerConfig}
use swandns.Authority.Split.{Library}
use swandns.DnsServer.{NameServer, Builder, Sockets, run}
use swandns.DnsServer.Zones.{collect}
use swandns.DnsServer.Catalog.{zone_entry, IsForward, add_zones_lem}
use swandns.Bin.{start_dns_server}

module _ (net : AddressText) (dns : Names) (h : IsNames net dns) (lib : Library dns)
    (build : Builder dns lib) (forward : dns.Name → List NameServer → lib.Forward)
    (made : IsForward net dns lib build forward) where
  -- With the DNS library as in `add_zones_lem`, a configuration with a zone, a static record or a
  -- name server that cannot be parsed makes `run` end with that error before it binds a socket, and
  -- yet the task of the DNS server reports success.
  pub bad_zone_is_silent :
      (host : Host) (sockets : Sockets build.Catalog) (cfg : ServerConfig) (x : Error)
      → collect (zone_entry net dns lib build forward cfg.nameservers) cfg.zones ≡ err x
      → (run net dns lib build host sockets cfg ≡ returned (err x))
        × (start_dns_server net dns lib build host sockets cfg false ≡ returned (ok tt))
  bad_zone_is_silent host sockets cfg x bad =
      let built =
        add_zones_lem net dns lib build forward h made cfg.nameservers cfg.zones
          build.new_catalog in
      let failed : run net dns lib build host sockets cfg ≡ returned (err x) =
        unfold run in rw (built, bad) in
      (failed, unfold start_dns_server in rw failed)
