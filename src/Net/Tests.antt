-- ===== src/Net/Tests.antt =====
-- Addresses as texts, and texts as addresses.
use swandns.Prelude.{◌≡◌, refl, none, some, [], ◌∷◌, map}
use swandns.Net.{IpAddr, v4, v6}
use swandns.Net.Digits.{put_octet, read_number}
use swandns.Net.Reading.{parse_ip, parse_socket}
use swandns.Net.Writing.{show_ip, show_socket}

abbrev local : IpAddr
local = v4 (record { a = 192; b = 168; c = 1; d = 20 })

abbrev link : IpAddr
link = v6 (record { segments = 65152 ∷ 0 ∷ 0 ∷ 0 ∷ 1 ∷ 0 ∷ 0 ∷ 10 ∷ [] })

abbrev mapped : IpAddr
mapped = v6 (record { segments = 0 ∷ 0 ∷ 0 ∷ 0 ∷ 0 ∷ 65535 ∷ 49320 ∷ 276 ∷ [] })

texts :
    map show_ip (local ∷ link ∷ mapped ∷ [])
    ≡ "192.168.1.20" ∷ "fe80::1:0:0:a" ∷ "::ffff:192.168.1.20" ∷ []
unfolding show_ip put_octet
texts = refl

addresses :
    map parse_ip (
      "192.168.1.20" ∷ "fe80::1:0:0:A" ∷ "::ffff:192.168.1.20" ∷ "192.168.1.256" ∷ "192.168.01.2"
      ∷ "192.168.1.2 " ∷ "1:2:3" ∷ "localhost" ∷ [])
    ≡ some local ∷ some link ∷ some mapped ∷ none ∷ none ∷ none ∷ none ∷ none ∷ []
unfolding parse_ip read_number
addresses = refl

sockets :
    map parse_socket (
      show_socket (record { ip = local; port = 53 })
      ∷ show_socket (record { ip = link; port = 1053 })
      ∷ "192.168.1.20"
      ∷ "192.168.1.20:65536"
      ∷ [])
    ≡ some (record { ip = local; port = 53 })
      ∷ some (record { ip = link; port = 1053 })
      ∷ none
      ∷ none
      ∷ []
unfolding parse_socket show_socket put_octet read_number
sockets = refl
