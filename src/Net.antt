-- ===== src/Net.antt =====
-- `std::net` as the program uses it: addresses, socket addresses, and their texts. What is modelled
-- takes the texts as an argument; Net/Text.antt has those of the standard library.
pub mod Digits
pub mod Reading
pub mod Writing
pub mod Ports
pub mod Bounds
pub mod Hex
pub mod Groups
pub mod Runs
pub mod Compressed
pub mod Embedded
pub mod RoundTrip
pub mod Text
mod Tests
use swandns.Prelude.{ℕ, String, ◌≡◌, Bool, true, false, Option, none, some, List}

-- the four octets
pub record Ipv4Addr : Type 0 where
  pub a : ℕ
  pub b : ℕ
  pub c : ℕ
  pub d : ℕ

-- the eight segments
pub record Ipv6Addr : Type 0 where
  pub segments : List ℕ

pub data IpAddr : Type 0 where
  v4 : Ipv4Addr → IpAddr
  v6 : Ipv6Addr → IpAddr

abbrev pub is_ipv4 : IpAddr → Bool
is_ipv4 (v4 _) = true
is_ipv4 (v6 _) = false

abbrev pub is_ipv6 : IpAddr → Bool
is_ipv6 (v4 _) = false
is_ipv6 (v6 _) = true

pub record SocketAddr : Type 0 where
  pub ip : IpAddr
  pub port : ℕ

-- `FromStr` and `Display` of `IpAddr` and `SocketAddr`
pub record AddressText : Type 0 where
  pub parse_ip : String → Option IpAddr
  pub show_ip : IpAddr → String
  pub parse_socket : String → Option SocketAddr
  pub show_socket : SocketAddr → String
