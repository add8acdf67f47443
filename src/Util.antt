-- ===== src/Util.antt =====
-- src/util.rs: addresses of interfaces, record data, names. The host and the DNS library are
-- parameters.
pub mod Interfaces
pub mod Sockets
pub mod Records
pub mod Database
mod Tests
use mathlib.Core.Option.{get_or}
use swandns.Prelude.{
  ℕ, String, Bool, true, not, Option, none, some, List, [], ◌∷◌, ◌==◌, if◌then◌else◌, Result, ok,
  err, ◌>>=◌, ok_or, Outcome, returned, and_then, unwrap, unwrap_some,
}
use Prim.Native.String.{◌++◌}
use swandns.Prelude.Text.{eq_ignore_ascii_case}
use swandns.Net.{Ipv4Addr, Ipv6Addr, IpAddr, v4, v6, is_ipv4, is_ipv6, SocketAddr, AddressText}
use swandns.Dns.{RecordType, a, aaaa, other, Rdata, Names}

-- what `anyhow!` or `?` makes an error of
pub data Error : Type 0 where
  unknown_protocol : String → Error
  interface_not_found : Error
  -- the host has no address of its own
  no_local_address : Error
  -- not an IPv4 or IPv6 address; not a record type that is served
  not_an_address unsupported_type : Error
  -- an address or a name that cannot be parsed
  bad_address bad_name : String → Error
  -- a socket, a file or a database that fails
  io_error : ℕ → Error

-- What the crate `local_ip_address` says of the machine.
pub record Host : Type 0 where
  pub local_ip : Result Error IpAddr
  pub local_ipv6 : Result Error IpAddr
  pub interfaces : Result Error (List (String × IpAddr))

abbrev pub system_protocol : IpAddr → String
system_protocol ip = if is_ipv6 ip then "ipv6" else if is_ipv4 ip then "ipv4" else "unknown"

-- the loop of `get_iface_addr`
unfoldable pub find_iface : String → String → List (String × IpAddr) → Result Error IpAddr
find_iface desired iface [] = err interface_not_found
find_iface desired iface ((system_iface, system_ip) ∷ rest) =
    let continue = find_iface desired iface rest in
    if not (eq_ignore_ascii_case (system_protocol system_ip) desired)
    then continue
    else if not (eq_ignore_ascii_case system_iface iface)
    then continue
    else ok system_ip

-- without an interface: the address of the host
unfoldable pub local_addr : Host → String → Result Error IpAddr
local_addr host desired =
    if eq_ignore_ascii_case desired "ipv4"
    then host.local_ip
    else if eq_ignore_ascii_case desired "ipv6"
    then host.local_ipv6
    else err (unknown_protocol desired)

unfoldable pub get_iface_addr : Host → Option String → Option String → Outcome (Result Error IpAddr)
unfolding find_iface local_addr
get_iface_addr host none protocol = returned (local_addr host (get_or protocol "ipv4"))
get_iface_addr host (some iface) protocol =
    unwrap host.interfaces
      (λ interfaces. returned (find_iface (get_or protocol "ipv4") iface interfaces))

-- the text of the address on which all interfaces are bound
unfoldable pub any_address : String → Result Error String
any_address proto =
    if proto == "ipv4"
    then ok "0.0.0.0"
    else if proto == "ipv6"
    then ok "::"
    else err (unknown_protocol proto)

module _ (net : AddressText) where
  unfoldable pub parse_ip : String → Result Error IpAddr
  parse_ip value = ok_or (bad_address value) (net.parse_ip value)

  unfoldable pub bind_addr : Host → Option String → Option String → Outcome (Result Error IpAddr)
  unfolding get_iface_addr any_address parse_ip
  bind_addr host (some iface) proto = get_iface_addr host (some iface) proto
  bind_addr host none proto = returned (any_address (get_or proto "ipv4") >>= parse_ip)

  unfoldable pub get_socket_addr :
      Host → Option String → ℕ → Option String → Outcome (Result Error SocketAddr)
  unfolding bind_addr
  get_socket_addr host iface port proto =
      and_then (bind_addr host iface proto)
        (λ r. returned (r >>= λ ip. ok (record { ip = ip; port = port })))

  unfoldable pub parse_ip_optional_socket : String → ℕ → Result Error SocketAddr
  unfolding parse_ip
  parse_ip_optional_socket value default_port = elim (net.parse_socket value) [
    | some socket_addr ↦ ok socket_addr
    | none ↦ parse_ip value >>= λ ip. ok (record { ip = ip; port = default_port })
  ]

unfoldable pub get_ip_addr_record_type : IpAddr → Result Error RecordType
get_ip_addr_record_type ip =
    if is_ipv4 ip then ok a else if is_ipv6 ip then ok aaaa else err not_an_address

-- the rest of a function after a `?`, in a function that may panic
abbrev pub try {ℓ κ} :
    {A : Type ℓ} {B : Type κ}
    → Result Error A
    → (A → Outcome (Result Error B))
    → Outcome (Result Error B)
try (ok x) k = k x
try (err e) k = returned (err e)

module _ (net : AddressText) (dns : Names) where
  -- the `match` on the record type
  unfoldable pub rdata_of : String → RecordType → Outcome (Result Error (Option Rdata))
  rdata_of value a = unwrap_some (dns.parse_a value) (λ addr. returned (ok (some (Rdata.a addr))))
  rdata_of value aaaa =
      unwrap_some (dns.parse_aaaa value) (λ addr. returned (ok (some (Rdata.aaaa addr))))
  rdata_of value (other code) = returned (err unsupported_type)

  unfoldable pub create_record_data : String → Outcome (Result Error (Option Rdata))
  unfolding rdata_of parse_ip get_ip_addr_record_type
  create_record_data value =
      try (parse_ip net value) (λ ip. try (get_ip_addr_record_type ip) (rdata_of value))

unfoldable pub render_record_name : (dns : Names) → String → dns.Name → Result Error dns.Name
render_record_name dns key zone_name =
    if "@" == key
    then ok zone_name
    else let text = key ++ "." ++ dns.show_name zone_name in
      ok_or (bad_name text) (dns.parse_name text)
