-- ===== src/Net/RoundTrip.antt =====
-- The texts that `Display` writes are read back by `FromStr`: addresses, and socket addresses.
use Prim.Native.Char.{code}
use Prim.Native.Nat.{◌/◌}
use Prim.Native.String.{◌∷◌}
use mathlib.Core.List.{List}
use swandns.Prelude.{
  ℕ, ◌<◌, ltb, leb, String, ◌≡◌, refl, not, ◌&&◌, Bool-cases, inl, inr, none, some, All, arith,
}
use swandns.Net.{IpAddr, v4, v6}
use swandns.Net.Digits.{digit_char, put_octet, to_digit, read_digits, read_number, all_below_lem}
use swandns.Net.Ports.{read_number-put_port}
use swandns.Net.Reading.{expect, read_octet, read_ipv4, parse_ip, parse_socket}
use swandns.Net.Writing.{
  put_ipv4, put_group, put_groups, put_compressed, longest_run, take, put_ipv6, put_port, show_ip,
  show_socket,
}
use swandns.Net.Bounds.{IsGroup, IsAddress}
use swandns.Net.Text.{read_ipv4-put_ipv4}
use swandns.Net.Hex.{NoDot, read_ipv4-NoDot}
use swandns.Net.Groups.{nothing-IsEnd, bracket-IsEnd}
use swandns.Net.Compressed.{take-All}
use swandns.Net.Embedded.{put_ipv6-cases, read_ipv6-put_ipv6, NoDot-put_ipv6}

not_ipv4 :
    (gs : List ℕ) (rest : String)
    → All IsGroup gs
    → NoDot rest
    → read_ipv4 (put_ipv6 gs rest) ≡ none
not_ipv4 gs rest small h = read_ipv4-NoDot (put_ipv6 gs rest) (NoDot-put_ipv6 gs rest small h)

pub parse_ip-show_ip : (ip : IpAddr) → IsAddress ip → parse_ip (show_ip ip) ≡ some ip
unfolding parse_ip show_ip
parse_ip-show_ip (v4 ip) h = rw (read_ipv4-put_ipv4 ip "" h tt)
parse_ip-show_ip (v6 ip) h =
    rw (not_ipv4 ip.segments "" h.1 tt, read_ipv6-put_ipv6 ip.segments "" h nothing-IsEnd tt)

pub parse_socket-show_socket :
    (ip : IpAddr) (port : ℕ)
    → IsAddress ip
    → port < 65536
    → parse_socket (show_socket (record { ip = ip; port = port }))
      ≡ some (record { ip = ip; port = port })
unfolding parse_socket show_socket to_digit read_ipv4 read_octet read_number read_digits
parse_socket-show_socket (v4 ip) port h fits =
    rw (read_ipv4-put_ipv4 ip (":" ∷ put_port port "") h refl, read_number-put_port port fits)
parse_socket-show_socket (v6 ip) port h fits = rw (
  read_ipv6-put_ipv6 ip.segments ("]" ∷ ":" ∷ put_port port "") h (bracket-IsEnd _) refl,
  read_number-put_port port fits,
)

-- no bracket begins the text
abbrev NoBracket : String → Type 0
NoBracket s = expect b'[' s ≡ none

NoBracket-digit_char : (d : ℕ) (s : String) → d < 16 → NoBracket (digit_char d ∷ s)
NoBracket-digit_char d s h = ground (
  arith,
  all_below_lem (λ d. not (leb b'[' (code (digit_char d)) && leb (code (digit_char d)) b'[')) 16 d
      refl h,
)

NoBracket-put_octet : (n : ℕ) (s : String) → n < 256 → NoBracket (put_octet n s)
unfolding put_octet
NoBracket-put_octet n s small = elim (Bool-cases (ltb n 10)) [
  | inl one ↦ rw one (NoBracket-digit_char n s (ground (arith, one)))
  | inr more ↦ elim (Bool-cases (ltb n 100)) [
    | inl two ↦ rw (more, two) (NoBracket-digit_char (n / 10) _ (ground (arith, two)))
    | inr three ↦ rw (more, three) (NoBracket-digit_char (n / 100) _ (omega (arith, small)))
  ]
]

NoBracket-put_group : (n : ℕ) (s : String) → n < 65536 → NoBracket (put_group n s)
unfolding put_group
NoBracket-put_group n s small = elim (Bool-cases (ltb n 16)) [
  | inl one ↦ rw one (NoBracket-digit_char n s (ground (arith, one)))
  | inr more ↦ elim (Bool-cases (ltb n 256)) [
    | inl two ↦ rw (more, two) (NoBracket-digit_char (n / 16) _ (ground (arith, two)))
    | inr much ↦ elim (Bool-cases (ltb n 4096)) [
      | inl three ↦
          rw (more, much, three) (NoBracket-digit_char (n / 256) _ (ground (arith, three)))
      | inr four ↦ rw (more, much, four) (NoBracket-digit_char (n / 4096) _ (omega (arith, small)))
    ]
  ]
]

NoBracket-put_groups :
    (gs : List ℕ) (rest : String) → All IsGroup gs → NoBracket rest → NoBracket (put_groups gs rest)
unfolding put_groups
NoBracket-put_groups List.[] rest small h = h
NoBracket-put_groups (List.◌∷◌ g List.[]) rest (small, _) h = NoBracket-put_group g rest small
NoBracket-put_groups (List.◌∷◌ g (List.◌∷◌ k gs)) rest (small, _) h = NoBracket-put_group g _ small

NoBracket-put_compressed :
    (gs : List ℕ) (run : ℕ × ℕ) (rest : String)
    → All IsGroup gs
    → NoBracket rest
    → NoBracket (put_compressed gs run rest)
unfolding put_compressed
NoBracket-put_compressed gs (start, len) rest small h = elim (Bool-cases (ltb 1 len)) [
  | inl long ↦ rw long (NoBracket-put_groups (take start gs) _ (take-All start gs small) refl)
  | inr short ↦ rw short (NoBracket-put_groups gs rest small h)
]

NoBracket-put_ipv6 : (gs : List ℕ) → All IsGroup gs → NoBracket (put_ipv6 gs "")
NoBracket-put_ipv6 gs small = elim (put_ipv6-cases gs "") [
  | inl e ↦ rw e (NoBracket-put_compressed gs (longest_run gs 0 0 0 0 0) "" small refl)
  | inr (inl (_, e)) ↦ rw e refl
  | inr (inr (_, e)) ↦ rw e refl
]

-- The text of an address alone is not that of a socket address.
pub parse_socket-show_ip : (ip : IpAddr) → IsAddress ip → parse_socket (show_ip ip) ≡ none
unfolding parse_socket show_ip put_ipv4
parse_socket-show_ip (v4 ip) h = rw (read_ipv4-put_ipv4 ip "" h tt, NoBracket-put_octet ip.a _ h.0)
parse_socket-show_ip (v6 ip) h =
    rw (not_ipv4 ip.segments "" h.1 tt, NoBracket-put_ipv6 ip.segments h.1)
