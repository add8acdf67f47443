-- ===== src/Net/Writing.antt =====
-- `Display` of the addresses of `std::net` (Rust 1.69, rust-toolchain.toml). A writer puts its text
-- in front of one.
use Prim.Native.Nat.{◌/◌, ◌%◌}
use Prim.Native.String.{◌∷◌}
use mathlib.Core.List.{List}
use swandns.Prelude.{ℕ, zero, suc, ◌+◌, ltb, leb, String, Bool, true, false, ◌&&◌, if◌then◌else◌}
use swandns.Net.{Ipv4Addr, IpAddr, v4, v6, SocketAddr}
use swandns.Net.Digits.{digit_char, put_octet}

unfoldable pub put_ipv4 : Ipv4Addr → String → String
put_ipv4 ip rest =
    put_octet ip.a ("." ∷ put_octet ip.b ("." ∷ put_octet ip.c ("." ∷ put_octet ip.d rest)))

-- a group in hexadecimal
unfoldable pub put_group : ℕ → String → String
put_group n rest =
    if ltb n 16
    then digit_char n ∷ rest
    else if ltb n 256
    then digit_char (n / 16) ∷ digit_char (n % 16) ∷ rest
    else if ltb n 4096
    then digit_char (n / 256) ∷ digit_char (n / 16 % 16) ∷ digit_char (n % 16) ∷ rest
    else digit_char (n / 4096)
      ∷ digit_char (n / 256 % 16)
      ∷ digit_char (n / 16 % 16)
      ∷ digit_char (n % 16)
      ∷ rest

-- `fmt_subslice`
unfoldable pub put_groups : List ℕ → String → String
unfolding put_group
put_groups List.[] rest = rest
put_groups (List.◌∷◌ g List.[]) rest = put_group g rest
put_groups (List.◌∷◌ g (List.◌∷◌ h gs)) rest = put_group g (":" ∷ put_groups (List.◌∷◌ h gs) rest)

-- The first of the longest runs of zeros, as start and length: `i` is the index of the next
-- segment, and `start` and `len` are the run that ends there.
unfoldable pub longest_run : List ℕ → (i start len best_start best_len : ℕ) → ℕ × ℕ
longest_run List.[] i start len best_start best_len = (best_start, best_len)
longest_run (List.◌∷◌ zero segments) i start len best_start best_len =
    let start = if ltb 0 len then start else i in
    if ltb best_len (len + 1)
    then longest_run segments (i + 1) start (len + 1) start (len + 1)
    else longest_run segments (i + 1) start (len + 1) best_start best_len
longest_run (List.◌∷◌ (suc n) segments) i start len best_start best_len =
    longest_run segments (i + 1) 0 0 best_start best_len

abbrev pub take : ℕ → List ℕ → List ℕ
take zero gs = List.[]
take (suc n) List.[] = List.[]
take (suc n) (List.◌∷◌ g gs) = List.◌∷◌ g (take n gs)

abbrev pub drop : ℕ → List ℕ → List ℕ
drop zero gs = gs
drop (suc n) List.[] = List.[]
drop (suc n) (List.◌∷◌ g gs) = drop n gs

-- around the run, if it is longer than one segment
unfoldable pub put_compressed : List ℕ → ℕ × ℕ → String → String
unfolding put_groups
put_compressed segments (start, len) rest =
    if ltb 1 len
    then put_groups (take start segments)
        (":" ∷ ":" ∷ put_groups (drop (start + len) segments) rest)
    else put_groups segments rest

unfoldable pub of_groups : ℕ → ℕ → Ipv4Addr
of_groups g h = record { a = g / 256; b = g % 256; c = h / 256; d = h % 256 }

abbrev pub segment : ℕ → List ℕ → ℕ
segment n List.[] = 0
segment zero (List.◌∷◌ g gs) = g
segment (suc n) (List.◌∷◌ g gs) = segment n gs

-- the first `n` segments are zero
abbrev pub all_zero : ℕ → List ℕ → Bool
all_zero zero gs = true
all_zero (suc n) List.[] = true
all_zero (suc n) (List.◌∷◌ zero gs) = all_zero n gs
all_zero (suc n) (List.◌∷◌ (suc _) gs) = false

-- `Display` of an IPv6 address: the unspecified and the loopback address, those that hold an IPv4
-- address, and the others
unfoldable pub put_ipv6 : List ℕ → String → String
unfolding put_ipv4 longest_run put_compressed of_groups
put_ipv6 segments rest =
    if all_zero 7 segments && ltb (segment 7 segments) 2
    then put_compressed segments (longest_run segments 0 0 0 0 0) rest
    else if all_zero 6 segments
    then ":" ∷ ":" ∷ put_ipv4 (of_groups (segment 6 segments) (segment 7 segments)) rest
    else if all_zero 5 segments && leb 65535 (segment 5 segments)
    then ":"
      ∷ ":"
      ∷ "f"
      ∷ "f"
      ∷ "f"
      ∷ "f"
      ∷ ":"
      ∷ put_ipv4 (of_groups (segment 6 segments) (segment 7 segments)) rest
    else put_compressed segments (longest_run segments 0 0 0 0 0) rest

unfoldable pub put_ip : IpAddr → String → String
unfolding put_ipv6
put_ip (v4 ip) rest = put_ipv4 ip rest
put_ip (v6 ip) rest = put_ipv6 ip.segments rest

unfoldable pub show_ip : IpAddr → String
unfolding put_ip
show_ip ip = put_ip ip ""

unfoldable pub put_last_three : ℕ → String → String
put_last_three n rest = digit_char (n / 100) ∷ digit_char (n / 10 % 10) ∷ digit_char (n % 10) ∷ rest

unfoldable pub put_port : ℕ → String → String
unfolding put_octet put_last_three
put_port n rest =
    if ltb n 1000
    then put_octet n rest
    else if ltb n 10000
    then digit_char (n / 1000) ∷ put_last_three (n % 1000) rest
    else digit_char (n / 10000) ∷ digit_char (n / 1000 % 10) ∷ put_last_three (n % 1000) rest

unfoldable pub show_socket : SocketAddr → String
unfolding put_ip put_port
show_socket s = elim s.ip [
  | v4 ip ↦ put_ipv4 ip (":" ∷ put_port s.port "")
  | v6 ip ↦ "[" ∷ put_ipv6 ip.segments ("]" ∷ ":" ∷ put_port s.port "")
]
