-- ===== src/Util/Tests.antt =====
-- Interfaces, socket addresses and record data at concrete hosts and texts.
use mathlib.Core.Option.{get_or}
use swandns.Prelude.{
  String, ◌≡◌, ◌≢◌, refl, ◌⊎◌, true, none, some, List, [], ◌∷◌, ok, err, returned, All, arith,
}
use swandns.Prelude.Text.{eq_ignore_ascii_case}
use swandns.Net.{IpAddr, v4, v6, SocketAddr}
use swandns.Dns.Fixtures.{loopback, loopback6, loopback6-IsSegments, net, names, names-IsNames}
use swandns.Util.{
  interface_not_found, unknown_protocol, bad_address, Host, system_protocol, get_iface_addr,
  get_socket_addr, create_record_data, parse_ip_optional_socket,
}
use swandns.Util.Interfaces.{
  IsFirst, IsMisfit, IsHost, get_iface_addr_named, get_iface_addr-protocol,
}
use swandns.Util.Sockets.{any_v4, any_v6, get_socket_addr_lem, parse_ip_optional_socket_lem}
use swandns.Util.Records.{rdata, create_record_data_lem}

abbrev interfaces : List (String × IpAddr)
interfaces = ("lo", v4 (loopback 1)) ∷ ("eth0", v6 loopback6) ∷ ("eth0", v4 (loopback 3)) ∷ []

abbrev host : Host
host = record {
  local_ip = ok (v4 (loopback 3));
  local_ipv6 = ok (v6 loopback6);
  interfaces = ok interfaces;
}

addresses :
    (get_iface_addr host (some "ETH0") none ≡ returned (ok (v4 (loopback 3))))
    × (get_iface_addr host (some "eth0") (some "IPv6") ≡ returned (ok (v6 loopback6)))
    × (get_iface_addr host none (some "ipv5") ≡ returned (err (unknown_protocol "ipv5")))
    × (get_iface_addr host (some "eth0") (some "ipv5") ≡ returned (err interface_not_found))
unfolding get_iface_addr eq_ignore_ascii_case
addresses = (refl, refl, refl, refl)

-- The same protocol is accepted with an interface and refused without one.
protocol_case :
    (get_socket_addr net host (some "eth0") 53 (some "IPv4")
      ≡ returned (ok (record { ip = v4 (loopback 3); port = 53 })))
    × (get_socket_addr net host none 53 (some "IPv4") ≡ returned (err (unknown_protocol "IPv4")))
unfolding get_socket_addr eq_ignore_ascii_case
protocol_case = (refl, refl)

get_iface_addr_named_example :
    ((ip : IpAddr) × (get_iface_addr host (some "ETH0") none ≡ returned (ok ip))
      × IsFirst (get_or none "ipv4") "ETH0" interfaces ip)
    ⊎ ((get_iface_addr host (some "ETH0") none ≡ returned (err interface_not_found))
        × All (IsMisfit (get_or none "ipv4") "ETH0") interfaces)
get_iface_addr_named_example = get_iface_addr_named host "ETH0" none interfaces refl

host-IsHost : IsHost host
host-IsHost = record { ipv4 = λ ip e. ground (arith, e); ipv6 = λ ip e. ground (arith, e) }

get_iface_addr-protocol_example :
    eq_ignore_ascii_case (system_protocol (v6 loopback6)) (get_or (some "IPv6") "ipv4") ≡ true
unfolding get_iface_addr eq_ignore_ascii_case
get_iface_addr-protocol_example =
    get_iface_addr-protocol host (some "eth0") (some "IPv6") (v6 loopback6) host-IsHost refl

create_record_data_lem_example :
    ((ip : IpAddr) × (net.parse_ip "127.0.0.3" ≡ some ip)
      × (create_record_data net names "127.0.0.3" ≡ returned (ok (some (rdata ip)))))
    ⊎ ((net.parse_ip "127.0.0.3" ≡ none)
        × (create_record_data net names "127.0.0.3" ≡ returned (err (bad_address "127.0.0.3"))))
create_record_data_lem_example = create_record_data_lem net names names-IsNames "127.0.0.3"

abbrev ipv6 : String
ipv6 = "ipv6"

get_socket_addr_lem_example :
    ((ipv6 ≡ "ipv4")
      × (get_socket_addr net host none 8080 (some ipv6)
          ≡ returned (ok (record { ip = any_v4; port = 8080 }))))
    ⊎ ((ipv6 ≡ ipv6)
        × (get_socket_addr net host none 8080 (some ipv6)
            ≡ returned (ok (record { ip = any_v6; port = 8080 }))))
    ⊎ ((ipv6 ≢ "ipv4")
        × (ipv6 ≢ ipv6)
        × (get_socket_addr net host none 8080 (some ipv6) ≡ returned (err (unknown_protocol ipv6))))
get_socket_addr_lem_example = get_socket_addr_lem host 8080 (some ipv6)

parse_ip_optional_socket_lem_example :
    (parse_ip_optional_socket net "[::1]:5353" 53 ≡ ok (record { ip = v6 loopback6; port = 5353 }))
    × (parse_ip_optional_socket net "::1" 53 ≡ ok (record { ip = v6 loopback6; port = 53 }))
unfolding swandns.Net.Writing.show_ip swandns.Net.Writing.show_socket swandns.Net.Digits.put_octet
parse_ip_optional_socket_lem_example =
    parse_ip_optional_socket_lem (v6 loopback6) 5353 53 loopback6-IsSegments (omega arith)
