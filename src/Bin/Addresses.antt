-- ===== src/Bin/Addresses.antt =====
-- The addresses on which the two servers of `swandns` (src/bin/server.rs) listen.
use swandns.Prelude.{
  ◌⊎◌, inl, inr, List, Result-cases, All, String, ◌≡◌, refl, Bool, Option, none, some, Result, ok,
  err, Outcome, returned, panicked, and_then,
}
use swandns.Net.{IpAddr, SocketAddr, AddressText}
use swandns.Dns.{Names}
use swandns.Net.Digits.{read_number}
use swandns.Net.Reading.{parse_ip}
use swandns.Net.Text.{std_net}
use swandns.Util.{Error, interface_not_found, Host, get_iface_addr, bind_addr, get_socket_addr}
use swandns.Util.Interfaces.{IsFirst, IsMisfit, get_iface_addr_named}
use swandns.Util.Sockets.{any_v4}
use swandns.Config.{ServerConfig}
use swandns.Authority.Split.{Library}
use swandns.DnsServer.{Builder, dns_socket_addr}
use swandns.Bin.{cancel_on_shutdown, start_rpc_server}

-- without a protocol the address is that of IPv4
default_protocol :
    (net : AddressText) (host : Host) (bind : Option String)
    → bind_addr net host bind (some "ipv4") ≡ bind_addr net host bind none
unfolding bind_addr
default_protocol net host none = refl
default_protocol net host (some iface) = refl

-- the task of a server that runs at an address, until it ends or is cancelled
abbrev pub served_at :
    (SocketAddr → Outcome (Result Error (Unit {0})))
    → Bool
    → SocketAddr
    → Outcome (Result Error (Unit {0}))
served_at serve is_cancelled addr =
    and_then (cancel_on_shutdown is_cancelled (serve addr)) (λ _. returned (ok tt))

-- the address of IPv4 that the host has for a configured interface, or for all of them
abbrev pub IsAddressOf : Host → Option String → Outcome (Result Error IpAddr) → Type 0
IsAddressOf host none found = found ≡ returned (ok any_v4)
IsAddressOf host (some iface) found =
    ((e : Error) × (host.interfaces ≡ err e) × (found ≡ panicked))
    ⊎ ((l : List (String × IpAddr)) × (host.interfaces ≡ ok l)
        × (((ip : IpAddr) × (found ≡ returned (ok ip)) × IsFirst "ipv4" iface l ip)
            ⊎ ((found ≡ returned (err interface_not_found)) × All (IsMisfit "ipv4" iface) l)))

bind_addr-IsAddressOf :
    (host : Host) (bind : Option String) → IsAddressOf host bind (bind_addr std_net host bind none)
unfolding bind_addr get_iface_addr parse_ip read_number
bind_addr-IsAddressOf host none = refl
bind_addr-IsAddressOf host (some iface) = elim (Result-cases host.interfaces) [
  | inl (l, listed) ↦ inr (l, listed, get_iface_addr_named host iface none l listed)
  | inr (e, failed) ↦ inl (e, failed, rw failed)
]

module _ (dns : Names) (lib : Library dns) (build : Builder dns lib) where
  -- What the two servers make of the address that is found for them.
  abbrev pub Listen :
      Host
      → (SocketAddr → Outcome (Result Error (Unit {0})))
      → ServerConfig
      → Bool
      → Outcome (Result Error IpAddr)
      → Type 0
  Listen host serve cfg is_cancelled (returned (ok ip)) =
      (dns_socket_addr std_net dns lib build host cfg
        ≡ returned (ok (record { ip = ip; port = cfg.dns_port })))
      × (start_rpc_server std_net host serve cfg is_cancelled
          ≡ served_at serve is_cancelled (record { ip = ip; port = cfg.api_port }))
  Listen host serve cfg is_cancelled (returned (err e)) =
      (dns_socket_addr std_net dns lib build host cfg ≡ returned (err e))
      × (start_rpc_server std_net host serve cfg is_cancelled ≡ returned (err e))
  Listen host serve cfg is_cancelled panicked =
      (dns_socket_addr std_net dns lib build host cfg ≡ panicked)
      × (start_rpc_server std_net host serve cfg is_cancelled ≡ panicked)

  listen_lem :
      (host : Host) (serve : SocketAddr → Outcome (Result Error (Unit {0}))) (cfg : ServerConfig)
      (is_cancelled : Bool) (found : Outcome (Result Error IpAddr))
      → bind_addr std_net host cfg.bind none ≡ found
      → Listen host serve cfg is_cancelled found
  unfolding dns_socket_addr start_rpc_server get_socket_addr
  listen_lem host serve cfg is_cancelled (returned (ok ip)) e =
      (rw e, rw (default_protocol std_net host cfg.bind, e))
  listen_lem host serve cfg is_cancelled (returned (err x)) e =
      (rw e, rw (default_protocol std_net host cfg.bind, e))
  listen_lem host serve cfg is_cancelled panicked e =
      (rw e, rw (default_protocol std_net host cfg.bind, e))

  -- Over the texts of `std::net`, both servers listen on one address of IPv4: 0.0.0.0 without a
  -- configured interface, and otherwise the address of the host's first interface of IPv4 with the
  -- configured name. The DNS server's socket address has the DNS port; the RPC server is run at the
  -- address with its own port, and its task succeeds whatever it returns, or ends with its panic.
  -- If no interface fits, both fail with the error that it was not found; if the host cannot list
  -- its interfaces, both panic.
  pub same_address :
      (host : Host) (serve : SocketAddr → Outcome (Result Error (Unit {0}))) (cfg : ServerConfig)
      (is_cancelled : Bool)
      → (found : Outcome (Result Error IpAddr)) × IsAddressOf host cfg.bind found
        × Listen host serve cfg is_cancelled found
  same_address host serve cfg is_cancelled =
      let found = bind_addr std_net host cfg.bind none in
      (
        found,
        bind_addr-IsAddressOf host cfg.bind,
        listen_lem host serve cfg is_cancelled found refl,
      )
