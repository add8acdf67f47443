-- ===== src/Net/Bounds.antt =====
-- The ranges of the numbers of an address: `u8` and `u16`.
use swandns.Prelude.{ℕ, ◌<◌, ◌≡◌, List, length, All}
use swandns.Net.{Ipv4Addr, IpAddr, v4, v6}

abbrev pub IsOctets : Ipv4Addr → Type 0
IsOctets ip = (ip.a < 256) × (ip.b < 256) × (ip.c < 256) × (ip.d < 256)

abbrev pub IsGroup : ℕ → Type 0
IsGroup g = g < 65536

abbrev pub IsSegments : List ℕ → Type 0
IsSegments gs = (length gs ≡ 8) × All IsGroup gs

abbrev pub IsAddress : IpAddr → Type 0
IsAddress (v4 ip) = IsOctets ip
IsAddress (v6 ip) = IsSegments ip.segments
