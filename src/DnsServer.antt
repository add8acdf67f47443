-- ===== src/DnsServer.antt =====
-- `DnsServer` (src/dns_server.rs): the catalog of zones that is built from the configuration, and
-- the sockets that serve it. The authorities and the catalog are the DNS library's.
pub mod Zones
pub mod Catalog
pub mod Static
pub mod Served
pub mod Fixtures
mod Tests
use swandns.Prelude.{
  ℕ, ◌+◌, String, Option, none, some, List, [], ◌∷◌, Result, ok, err, ◌>>=◌, Outcome, returned,
  and_then, unwrap, ok_or,
}
use swandns.Net.{SocketAddr, AddressText}
use swandns.Dns.{RecordType, in_class, Rdata, Names, Record}
use swandns.Config.{RecordConfig, ZoneConfig, ServerConfig}
use swandns.Util.{
  Error, bad_name, io_error, Host, try, parse_ip, get_socket_addr, parse_ip_optional_socket,
  get_ip_addr_record_type, create_record_data, render_record_name,
}
use swandns.Authority.{ZoneType}
use swandns.Authority.Split.{Library, SplitAuthority}

pub data Protocol : Type 0 where
  udp tcp : Protocol

-- `NameServerConfig`
pub record NameServer : Type 0 where
  pub socket_addr : SocketAddr
  pub protocol : Protocol

-- How the DNS library makes authorities and catalogs.
pub record Builder (dns : Names) (lib : Library dns) : Type 1 where
  -- `InMemoryAuthority::empty` and `upsert`, with a serial number
  pub empty : dns.Name → lib.InMemory
  pub insert : Record dns → ℕ → lib.InMemory → lib.InMemory
  -- `ForwardAuthority::try_from_config`
  pub forward : dns.Name → List NameServer → Result String lib.Forward
  pub Catalog : Type 0
  pub new_catalog : Catalog
  pub upsert : dns.LowerName → SplitAuthority dns lib → Catalog → Catalog

-- What the operating system and the server's loop do.
pub record Sockets (Catalog : Type 0) : Type 0 where
  pub bind_udp : SocketAddr → Result Error SocketAddr
  pub bind_tcp : SocketAddr → Result Error SocketAddr
  -- with the seconds after which a TCP request times out
  pub block_until_done : Catalog → SocketAddr → SocketAddr → ℕ → Result Error (Unit {0})

-- the loop over the upstream name servers: each is asked over both protocols
unfoldable pub name_servers : AddressText → List String → Result Error (List NameServer)
name_servers net [] = ok []
name_servers net (nameserver ∷ rest) = do
  socket_addr ← parse_ip_optional_socket net nameserver 53
  servers ← name_servers net rest
  ok (
      record { socket_addr = socket_addr; protocol = udp }
      ∷ record { socket_addr = socket_addr; protocol = tcp }
      ∷ servers)

module _ (net : AddressText) (dns : Names) (lib : Library dns) (build : Builder dns lib) where
  -- The loop over the static records of a zone; `i` is the serial number, a `u32` that a
  -- configuration's records do not exhaust.
  unfoldable pub add_records :
      dns.Name → List RecordConfig → ℕ → lib.InMemory → Outcome (Result Error lib.InMemory)
  add_records zone_name [] i authority = returned (ok authority)
  add_records zone_name (r ∷ rs) i authority = try (render_record_name dns r.key zone_name) (λ name.
      try (parse_ip net r.value) (λ ip_addr. try (get_ip_addr_record_type ip_addr) (λ rr_type.
        and_then (create_record_data net dns r.value) (λ made. try made (λ rdata.
          add_records zone_name rs (i + 1) (
            build.insert
              (record {
                name = name;
                rr_type = rr_type;
                dns_class = in_class;
                ttl = 30;
                rdata = rdata;
              })
              i authority))))))

  -- one round of the loop over the zones
  unfoldable pub add_zone :
      List String → ZoneConfig → build.Catalog → Outcome (Result Error build.Catalog)
  unfolding add_records name_servers
  add_zone nameservers zone_config catalog =
      try (ok_or (bad_name zone_config.name) (dns.parse_name zone_config.name)) (λ zone_name.
        and_then (add_records zone_name zone_config.records 0 (build.empty zone_name)) (λ added.
          try added (λ in_memory_authority. try (name_servers net nameservers) (λ servers.
            unwrap (build.forward zone_name servers) (λ forward_authority. returned (
              ok (
                build.upsert (dns.lower zone_name)
                  (record {
                    origin = dns.lower zone_name;
                    in_memory_authority = in_memory_authority;
                    sqlite_authority = record {
                      origin = dns.lower zone_name;
                      zone_type = ZoneType.primary;
                    };
                    forward_authority = forward_authority;
                  })
                  catalog)))))))

  unfoldable pub add_zones :
      List String → List ZoneConfig → build.Catalog → Outcome (Result Error build.Catalog)
  unfolding add_zone
  add_zones nameservers [] catalog = returned (ok catalog)
  add_zones nameservers (zone ∷ zones) catalog =
      and_then (add_zone nameservers zone catalog)
        (λ added. try added (λ catalog'. add_zones nameservers zones catalog'))

  -- `DnsServer::get_socket_addr`
  unfoldable pub dns_socket_addr : Host → ServerConfig → Outcome (Result Error SocketAddr)
  dns_socket_addr host cfg = get_socket_addr net host cfg.bind cfg.dns_port none

  -- `DnsServer::run`
  unfoldable pub run :
      Host → Sockets build.Catalog → ServerConfig → Outcome (Result Error (Unit {0}))
  unfolding add_zones dns_socket_addr
  run host sockets cfg = and_then (add_zones cfg.nameservers cfg.zones build.new_catalog) (λ added.
      try added (λ catalog. and_then (dns_socket_addr host cfg) (λ addr.
        try addr (λ dns_listen_addr. try (sockets.bind_udp dns_listen_addr) (λ udp_addr.
          try (sockets.bind_tcp dns_listen_addr)
            (λ tcp_addr. returned (sockets.block_until_done catalog udp_addr tcp_addr 3)))))))
