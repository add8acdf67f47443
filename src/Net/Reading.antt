-- ===== src/Net/Reading.antt =====
-- `FromStr` of the addresses of `std::net` (Rust 1.69, rust-toolchain.toml). A reader returns what
-- it read and the rest of the text. The scope of an IPv6 socket address is read, and not kept.
use Prim.Native.String.{[], ◌∷◌}
use Prim.Native.Char.{code}
use mathlib.Core.List.{List, ◌++◌}
use swandns.Prelude.{
  ℕ, zero, suc, ◌+◌, ◌-◌, ◌*◌, ltb, leb, String, Bool, true, false, ◌&&◌, Option, none, some,
  length, if◌then◌else◌,
}
use swandns.Net.{Ipv4Addr, Ipv6Addr, IpAddr, v4, v6, SocketAddr}
use swandns.Net.Digits.{◌>>=◌, read_number}

abbrev pub Reader : Type 0 → Type 0
Reader A = String → Option (A × String)

-- `read_given_char`
abbrev pub expect : ℕ → String → Option String
expect c [] = none
expect c (d ∷ s) = if leb c (code d) && leb (code d) c then some s else none

unfoldable pub read_octet : Reader ℕ
read_octet = read_number 10 (some 3) false 255

unfoldable pub read_ipv4 : Reader Ipv4Addr
unfolding read_octet
read_ipv4 s = do
  (a, s) ← read_octet s
  s ← expect b'.' s
  (b, s) ← read_octet s
  s ← expect b'.' s
  (c, s) ← read_octet s
  s ← expect b'.' s
  (d, s) ← read_octet s
  some (record { a = a; b = b; c = c; d = d }, s)

abbrev pub after_separator : Bool → String → Option String
after_separator is_first s = if is_first then some s else expect b':' s

-- `read_groups`, with so many groups to fill: those that are read, and whether the last two are an
-- IPv4 address
unfoldable pub read_groups : ℕ → Bool → String → List ℕ × Bool × String
unfolding read_ipv4
read_groups zero is_first s = (List.[], false, s)
read_groups (suc n) is_first s =
    elim (if ltb 0 n then after_separator is_first s >>= read_ipv4 else none) [
      | some (ip, rest) ↦
          (List.◌∷◌ (ip.a * 256 + ip.b) (List.◌∷◌ (ip.c * 256 + ip.d) List.[]), true, rest)
      | none ↦ elim (after_separator is_first s >>= read_number 16 (some 4) true 65535) [
        | some (group, rest) ↦
            let (groups, is_ipv4, rest') = read_groups n false rest in
            (List.◌∷◌ group groups, is_ipv4, rest')
        | none ↦ (List.[], false, s)
      ]
    ]

abbrev pub zeros : ℕ → List ℕ
zeros zero = List.[]
zeros (suc n) = List.◌∷◌ 0 (zeros n)

unfoldable pub read_ipv6 : Reader Ipv6Addr
unfolding read_groups
read_ipv6 s =
    let (head, is_ipv4, rest) = read_groups 8 true s in
    if leb 8 (length head)
    then some (record { segments = head }, rest)
    else if is_ipv4
    then none
    else expect b':' rest >>= λ rest. expect b':' rest >>= λ rest.
        let (tail, _, rest) = read_groups (7 - length head) true rest in
        some (record { segments = head ++ zeros (8 - length head - length tail) ++ tail }, rest)

abbrev pub or_read : {A : Type 0} → Option A → Option A → Option A
or_read none o = o
or_read (some a) o = some a

unfoldable pub read_ip : Reader IpAddr
unfolding read_ipv4 read_ipv6
read_ip s =
    or_read (read_ipv4 s >>= λ (ip, rest). some (v4 ip, rest))
      (read_ipv6 s >>= λ (ip, rest). some (v6 ip, rest))

-- `parse_with`: nothing may be left
abbrev pub all_read : {A : Type 0} → Option (A × String) → Option A
all_read none = none
all_read (some (a, [])) = some a
all_read (some (a, _ ∷ _)) = none

unfoldable pub parse_ip : String → Option IpAddr
unfolding read_ip
parse_ip s = all_read (read_ip s)

unfoldable pub read_port : Reader ℕ
read_port s = expect b':' s >>= read_number 10 none true 65535

-- `read_scope_id`, which may be missing
unfoldable pub after_scope : String → String
after_scope s = elim (expect b'%' s >>= read_number 10 none true 4294967295) [
  | none ↦ s
  | some (_, rest) ↦ rest
]

unfoldable pub read_socket : Reader SocketAddr
unfolding read_ipv4 read_ipv6 read_port after_scope
read_socket s =
    or_read
      (read_ipv4 s >>= λ (ip, rest).
        read_port rest >>= λ (port, rest). some (record { ip = v4 ip; port = port }, rest))
      (expect b'[' s >>= read_ipv6 >>= λ (ip, rest). expect b']' (after_scope rest) >>= λ rest.
        read_port rest >>= λ (port, rest). some (record { ip = v6 ip; port = port }, rest))

unfoldable pub parse_socket : String → Option SocketAddr
unfolding read_socket
parse_socket s = all_read (read_socket s)
