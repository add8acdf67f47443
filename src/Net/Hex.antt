-- ===== src/Net/Hex.antt =====
-- A group of an IPv6 address in hexadecimal: it is read back, and it is not the beginning of an
-- IPv4 address.
use Prim.Native.Char.{Char, code}
use Prim.Native.Nat.{◌/◌, ◌%◌}
use Prim.Native.String.{[], ◌∷◌}
use swandns.Prelude.{
  ℕ, ◌+◌, ◌*◌, ◌≤◌, ◌<◌, ltb, leb, String, ◌≡◌, refl, Bool-cases, inl, inr, true, false, ◌&&◌,
  Option-cases, Option, none, some, arith,
}
use swandns.Net.Digits.{
  to_digit, read_digits, read_number, digit_char, all_below_lem, is_same, is_same_lem,
}
use swandns.Net.Reading.{expect, read_ipv4}
use swandns.Net.Writing.{put_group}

pub to_digit-digit_char_hex : (d : ℕ) → d < 16 → to_digit 16 (digit_char d) ≡ some d
unfolding to_digit
to_digit-digit_char_hex d h =
    is_same_lem d _ (all_below_lem (λ d. is_same d (to_digit 16 (digit_char d))) 16 d refl h)

-- a text at which the reading of a group ends
abbrev pub StopsHex : String → Type 0
StopsHex [] = Unit
StopsHex (c ∷ s) = to_digit 16 c ≡ none

read_digits-stop_hex :
    (n count : ℕ) (s : String)
    → StopsHex s
    → read_digits 16 (some 4) 65535 n count s ≡ some (n, count, s)
unfolding read_digits
read_digits-stop_hex n count [] h = refl
read_digits-stop_hex n count (c ∷ s) h = rw (read_digits, h)

read_digits-digit_hex :
    (d n n' count : ℕ) (s : String)
    → d < 16
    → n' ≡ n * 16 + d
    → n' ≤ 65535
    → count < 4
    → read_digits 16 (some 4) 65535 n count (digit_char d ∷ s)
      ≡ read_digits 16 (some 4) 65535 n' (count + 1) s
unfolding read_digits
read_digits-digit_hex d n n' count s h e fits short =
    rw (read_digits, to_digit-digit_char_hex d h, e) (ground (arith, e, fits, short))

-- A group is read back, up to the text behind it.
pub read_number-put_group :
    (n : ℕ) (rest : String)
    → n < 65536
    → StopsHex rest
    → read_number 16 (some 4) true 65535 (put_group n rest) ≡ some (n, rest)
unfolding read_number put_group
read_number-put_group n rest small stop = elim (Bool-cases (ltb n 16)) [
  | inl one ↦ rw (
    one,
    read_digits-digit_hex n 0 n 0 rest (ground (arith, one)) (omega arith) (omega (arith, small))
        (omega arith),
    read_digits-stop_hex n 1 rest stop,
  )
  | inr more ↦ elim (Bool-cases (ltb n 256)) [
    | inl two ↦ rw (
      more,
      two,
      read_digits-digit_hex (n / 16) 0 (n / 16) 0 (digit_char (n % 16) ∷ rest) (ground (arith, two))
          (omega arith) (omega (arith, small)) (omega arith),
      read_digits-digit_hex (n % 16) (n / 16) n 1 rest (omega arith) (omega arith)
          (omega (arith, small)) (omega arith),
      read_digits-stop_hex n 2 rest stop,
    )
    | inr much ↦ elim (Bool-cases (ltb n 4096)) [
      | inl three ↦ rw (
        more,
        much,
        three,
        read_digits-digit_hex (n / 256) 0 (n / 256) 0
            (digit_char (n / 16 % 16) ∷ digit_char (n % 16) ∷ rest) (ground (arith, three))
            (omega arith) (omega (arith, small)) (omega arith),
        read_digits-digit_hex (n / 16 % 16) (n / 256) (n / 16) 1 (digit_char (n % 16) ∷ rest)
            (omega arith) (omega arith) (omega (arith, small)) (omega arith),
        read_digits-digit_hex (n % 16) (n / 16) n 2 rest (omega arith) (omega arith)
            (omega (arith, small)) (omega arith),
        read_digits-stop_hex n 3 rest stop,
      )
      | inr four ↦ rw (
        more,
        much,
        four,
        read_digits-digit_hex (n / 4096) 0 (n / 4096) 0
            (digit_char (n / 256 % 16) ∷ digit_char (n / 16 % 16) ∷ digit_char (n % 16) ∷ rest)
            (omega (arith, small)) (omega arith) (omega (arith, small)) (omega arith),
        read_digits-digit_hex (n / 256 % 16) (n / 4096) (n / 256) 1
            (digit_char (n / 16 % 16) ∷ digit_char (n % 16) ∷ rest) (omega arith) (omega arith)
            (omega (arith, small)) (omega arith),
        read_digits-digit_hex (n / 16 % 16) (n / 256) (n / 16) 2 (digit_char (n % 16) ∷ rest)
            (omega arith) (omega arith) (omega (arith, small)) (omega arith),
        read_digits-digit_hex (n % 16) (n / 16) n 3 rest (omega arith) (omega arith)
            (omega (arith, small)) (omega arith),
        read_digits-stop_hex n 4 rest stop,
      )
    ]
  ]
]

-- No dot stands behind the hexadecimal digits at the beginning of the text.
abbrev pub NoDotFor : Option ℕ → ℕ → Type 0 → Type 0
NoDotFor none c rest = leb b'.' c && leb c b'.' ≡ false
NoDotFor (some _) c rest = rest

abbrev pub NoDot : String → Type 0
NoDot [] = Unit
NoDot (c ∷ s) = NoDotFor (to_digit 16 c) (code c) (NoDot s)

pub NoDot-digit_char : (d : ℕ) (s : String) → d < 16 → NoDot s → NoDot (digit_char d ∷ s)
NoDot-digit_char d s h rest = rw (to_digit-digit_char_hex d h) rest

pub NoDot-put_group : (n : ℕ) (rest : String) → n < 65536 → NoDot rest → NoDot (put_group n rest)
unfolding put_group
NoDot-put_group n rest small h = elim (Bool-cases (ltb n 16)) [
  | inl one ↦ rw one (NoDot-digit_char n rest (ground (arith, one)) h)
  | inr more ↦
      let units = digit_char (n % 16) ∷ rest in
      let tens = digit_char (n / 16 % 16) ∷ units in
      let hundreds = digit_char (n / 256 % 16) ∷ tens in
      let last : NoDot units = NoDot-digit_char (n % 16) rest (omega arith) h in
      let last_two : NoDot tens = NoDot-digit_char (n / 16 % 16) units (omega arith) last in
      elim (Bool-cases (ltb n 256)) [
        | inl two ↦ rw (more, two) (NoDot-digit_char (n / 16) units (ground (arith, two)) last)
        | inr much ↦ elim (Bool-cases (ltb n 4096)) [
          | inl three ↦
              rw (more, much, three)
                (NoDot-digit_char (n / 256) tens (ground (arith, three)) last_two)
          | inr four ↦
              rw (more, much, four)
                (NoDot-digit_char (n / 4096) hundreds (omega (arith, small))
                  (NoDot-digit_char (n / 256 % 16) tens (omega arith) last_two))
        ]
      ]
]

NoDot-tail : (c : Char) (s : String) (d : ℕ) → to_digit 10 c ≡ some d → NoDot (c ∷ s) → NoDot s
unfolding to_digit
NoDot-tail c s d e h = let e' : to_digit 16 c ≡ some d = ground (arith, e) in rw e' at h

-- what the loop leaves of such a text
read_digits-NoDot :
    (most : Option ℕ) (largest n count : ℕ) (s : String) (m k : ℕ) (r : String)
    → NoDot s
    → read_digits 10 most largest n count s ≡ some (m, k, r)
    → NoDot r
unfolding read_digits
read_digits-NoDot most largest n count [] m k r h e =
    let e' : r ≡ "" = ground (arith, e) in rw e' tt
read_digits-NoDot most largest n count (c ∷ s) m k r h e = elim (Option-cases (to_digit 10 c)) [
  | inl stop ↦ let e' : (c ∷ s) ≡ r = ground (arith, e, stop) in rw (← e') h
  | inr (d, digit) ↦
      read_digits-NoDot most largest (n * 10 + d) (count + 1) s m k r (NoDot-tail c s d digit h)
        (ground (arith, e, digit))
]

expect-NoDot : (s : String) → NoDot s → expect b'.' s ≡ none
unfolding to_digit
expect-NoDot [] h = refl
expect-NoDot (c ∷ s) h = elim (Option-cases (to_digit 16 c)) [
  | inl stop ↦ let h' = rw stop at h in ground (arith, h')
  | inr (d, digit) ↦ ground (arith, digit)
]

-- Such a text does not begin with an IPv4 address.
pub read_ipv4-NoDot : (s : String) → NoDot s → read_ipv4 s ≡ none
unfolding read_ipv4 read_number
read_ipv4-NoDot s h = elim (Option-cases (read_digits 10 (some 3) 255 0 0 s)) [
  | inl bad ↦ rw bad
  | inr ((n, count, r), good) ↦
      let dot = expect-NoDot r (read_digits-NoDot (some 3) 255 0 0 s n count r h good) in
      rw good (ground (arith, dot))
]
