-- ===== src/Util/Sockets.antt =====
-- What `get_socket_addr` and `parse_ip_optional_socket` (src/util.rs) make of the texts of
-- `std::net`.
use mathlib.Core.Option.{get_or}
use Prim.Native.String.{◌∷◌}
use swandns.Prelude.{
  ℕ, ◌<◌, String, ◌≡◌, ◌≢◌, ◌⊎◌, inl, inr, Bool-cases, Option, none, [], ◌∷◌, ok, err, returned,
  ◌==◌, eq_iff, arith,
}
use swandns.Net.{IpAddr, v4, v6}
use swandns.Net.Digits.{read_number}
use swandns.Net.Reading.{parse_ip}
use swandns.Net.Writing.{show_ip, show_socket}
use swandns.Net.Text.{std_net}
use swandns.Net.Bounds.{IsAddress}
use swandns.Net.RoundTrip.{parse_ip-show_ip, parse_socket-show_socket, parse_socket-show_ip}
use swandns.Util.{unknown_protocol, Host, get_socket_addr, parse_ip_optional_socket}

-- the addresses `0.0.0.0` and `::`
abbrev pub any_v4 : IpAddr
any_v4 = v4 (record { a = 0; b = 0; c = 0; d = 0 })

abbrev pub any_v6 : IpAddr
any_v6 = v6 (record { segments = 0 ∷ 0 ∷ 0 ∷ 0 ∷ 0 ∷ 0 ∷ 0 ∷ 0 ∷ [] })

-- Without an interface, the socket address is that of all interfaces of the wanted protocol, IPv4
-- by default, whose name must be in lower case; any other protocol is an error, and nothing panics.
pub get_socket_addr_lem :
    (host : Host) (port : ℕ) (proto : Option String)
    → ((get_or proto "ipv4" ≡ "ipv4")
        × (get_socket_addr std_net host none port proto
            ≡ returned (ok (record { ip = any_v4; port = port }))))
      ⊎ ((get_or proto "ipv4" ≡ "ipv6")
          × (get_socket_addr std_net host none port proto
              ≡ returned (ok (record { ip = any_v6; port = port }))))
      ⊎ ((get_or proto "ipv4" ≢ "ipv4")
          × (get_or proto "ipv4" ≢ "ipv6")
          × (get_socket_addr std_net host none port proto
              ≡ returned (err (unknown_protocol (get_or proto "ipv4")))))
unfolding get_socket_addr parse_ip read_number
get_socket_addr_lem host port proto =
    let p = get_or proto "ipv4" in
    elim (Bool-cases (p == "ipv4")) [
      | inl four ↦ inl ((eq_iff p "ipv4").0 four, rw four)
      | inr other ↦ elim (Bool-cases (p == "ipv6")) [
        | inl six ↦ inr (inl ((eq_iff p "ipv6").0 six, rw (other, six)))
        | inr neither ↦ inr (
            inr (
              ground (arith, eq_iff p "ipv4", other),
              ground (arith, eq_iff p "ipv6", neither),
              rw (other, neither),
            ))
      ]
    ]

-- The text of a socket address, of IPv4 or IPv6, is read as that address with its own port,
-- whatever the default port; the text of an address alone, with the default port.
pub parse_ip_optional_socket_lem :
    (ip : IpAddr) (port default_port : ℕ)
    → IsAddress ip
    → port < 65536
    → (parse_ip_optional_socket std_net (show_socket (record { ip = ip; port = port })) default_port
        ≡ ok (record { ip = ip; port = port }))
      × (parse_ip_optional_socket std_net (show_ip ip) default_port
          ≡ ok (record { ip = ip; port = default_port }))
unfolding parse_ip_optional_socket
parse_ip_optional_socket_lem ip port default_port h fits = (
  rw (parse_ip_optional_socket, parse_socket-show_socket ip port h fits),
  rw (parse_ip_optional_socket, parse_socket-show_ip ip h, parse_ip-show_ip ip h),
)
