-- ===== src/Net/Text.antt =====
-- The texts of `std::net`, and that an IPv4 address is read back.
use swandns.Prelude.{String, ◌≡◌, refl, some}
use swandns.Net.{Ipv4Addr, AddressText}
pub use swandns.Net.Bounds.{IsOctets}
use swandns.Net.Digits.{to_digit, Stops, read_number-put_octet}
use swandns.Net.Reading.{read_ipv4, parse_ip, parse_socket}
use swandns.Net.Writing.{put_ipv4, show_ip, show_socket}

-- `std::net`
abbrev pub std_net : AddressText
std_net = record {
  parse_ip = parse_ip;
  show_ip = show_ip;
  parse_socket = parse_socket;
  show_socket = show_socket;
}

pub read_ipv4-put_ipv4 :
    (ip : Ipv4Addr) (rest : String)
    → IsOctets ip
    → Stops rest
    → read_ipv4 (put_ipv4 ip rest) ≡ some (ip, rest)
unfolding read_ipv4 put_ipv4 to_digit
read_ipv4-put_ipv4 ip rest (a, b, c, d) stop = rw (
  read_number-put_octet ip.a _ a refl,
  read_number-put_octet ip.b _ b refl,
  read_number-put_octet ip.c _ c refl,
  read_number-put_octet ip.d rest d stop,
)
