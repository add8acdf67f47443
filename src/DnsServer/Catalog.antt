-- ===== src/DnsServer/Catalog.antt =====
-- The whole catalog of `DnsServer::run` (src/dns_server.rs), and what a bad configuration does.
use swandns.Prelude.{
  String, ◌≡◌, refl, inl, inr, Option-cases, List, [], ◌∷◌, Result, ok, ◌>>=◌, Result-cases,
  returned, ok_or,
}
use swandns.Net.{SocketAddr, AddressText}
use swandns.Dns.{Names, IsNames}
use swandns.Config.{ZoneConfig}
use swandns.Util.{Error, bad_name, parse_ip_optional_socket}
use swandns.Authority.{ZoneType}
use swandns.Authority.Split.{Library, SplitAuthority}
use swandns.DnsServer.{NameServer, udp, tcp, Builder, name_servers, add_zone, add_zones}
use swandns.DnsServer.Zones.{collect, static_record, insert_all, upsert_all, add_records_lem}

-- each address over both protocols
abbrev pub over_both : List SocketAddr → List NameServer
over_both [] = []
over_both (s ∷ ss) =
    record { socket_addr = s; protocol = udp }
    ∷ record { socket_addr = s; protocol = tcp }
    ∷ over_both ss

module _ (net : AddressText) where
  abbrev pub upstream_addr : String → Result Error SocketAddr
  upstream_addr text = parse_ip_optional_socket net text 53

  name_servers_lem :
      (texts : List String)
      → name_servers net texts ≡ (collect upstream_addr texts >>= λ ss. ok (over_both ss))
  unfolding name_servers
  name_servers_lem [] = refl
  name_servers_lem (text ∷ texts) = elim (Result-cases (upstream_addr text)) [
    | inr (x, bad) ↦ rw bad
    | inl (s, good) ↦ elim (Result-cases (collect upstream_addr texts)) [
      | inl (ss, rest) ↦ rw (good, name_servers_lem texts, rest)
      | inr (x, bad) ↦ rw (good, name_servers_lem texts, bad)
    ]
  ]

module _ (net : AddressText) (dns : Names) (lib : Library dns) (build : Builder dns lib)
    (forward : dns.Name → List NameServer → lib.Forward) where
  -- the authority of a zone, under its name in lower case
  abbrev pub zone_entry :
      List String → ZoneConfig → Result Error (dns.LowerName × SplitAuthority dns lib)
  zone_entry nameservers zone =
      ok_or (bad_name zone.name) (dns.parse_name zone.name) >>= λ zone_name.
      collect (static_record net dns zone_name) zone.records >>= λ records.
      collect (upstream_addr net) nameservers >>= λ servers. ok (
        dns.lower zone_name,
        record {
          origin = dns.lower zone_name;
          in_memory_authority = insert_all build records 0 (build.empty zone_name);
          sqlite_authority = record { origin = dns.lower zone_name; zone_type = ZoneType.primary };
          forward_authority = forward zone_name (over_both servers);
        },
      )

  abbrev pub IsForward : Type 0
  IsForward =
      (name : dns.Name) (servers : List NameServer)
      → build.forward name servers ≡ ok (forward name servers)

  module _ (h : IsNames net dns) (made : IsForward) where
    add_zone_lem :
        (nameservers : List String) (zone : ZoneConfig) (catalog : build.Catalog)
        → add_zone net dns lib build nameservers zone catalog
          ≡ returned
              (zone_entry nameservers zone >>= λ entry. ok (build.upsert entry.0 entry.1 catalog))
    unfolding add_zone
    add_zone_lem nameservers zone catalog = elim (Option-cases (dns.parse_name zone.name)) [
      | inl bad ↦ rw bad
      | inr (zone_name, named) ↦
          rw (named, add_records_lem net dns h lib build zone_name zone.records 0 _)
            (elim (Result-cases (collect (static_record net dns zone_name) zone.records)) [
              | inr (x, bad) ↦ rw bad
              | inl (records, good) ↦
                  rw (good, name_servers_lem net nameservers)
                    (elim (Result-cases (collect (upstream_addr net) nameservers)) [
                      | inr (x, bad) ↦ rw bad
                      | inl (servers, found) ↦ rw (found, made zone_name (over_both servers))
                    ])
            ])
    ]

    -- The catalog has, for every zone of the configuration and in its order, an authority under the
    -- zone's name in lower case, with the records of all its static entries and with every upstream
    -- server over UDP and TCP (port 53 by default). If anything in any zone cannot be parsed there
    -- is no catalog, but the first error. Building it never panics, as long as the DNS library
    -- reads addresses as the standard library does and makes a forwarding authority of any servers.
    pub add_zones_lem :
        (nameservers : List String) (zones : List ZoneConfig) (catalog : build.Catalog)
        → add_zones net dns lib build nameservers zones catalog
          ≡ returned (
              collect (zone_entry nameservers) zones >>= λ entries.
              ok (upsert_all build entries catalog))
    unfolding add_zones
    add_zones_lem nameservers [] catalog = refl
    add_zones_lem nameservers (zone ∷ zones) catalog =
        rw (add_zone_lem nameservers zone catalog)
          (elim (Result-cases (zone_entry nameservers zone)) [
            | inr (x, bad) ↦ rw bad
            | inl (entry, good) ↦
                rw (good, add_zones_lem nameservers zones (build.upsert entry.0 entry.1 catalog))
                  (elim (Result-cases (collect (zone_entry nameservers) zones)) [
                    | inl (entries, rest) ↦ rw rest
                    | inr (x, bad) ↦ rw bad
                  ])
          ])
