-- ===== src/Net/Embedded.antt =====
-- An IPv6 address whose text ends with an IPv4 address is read back, and so every IPv6 address is.
use Prim.Native.Nat.{◌/◌, ◌%◌}
use Prim.Native.String.{◌∷◌}
use mathlib.Core.List.{List, ◌++◌}
use swandns.Prelude.{
  ℕ, zero, suc, ◌+◌, ◌*◌, ◌≤◌, ◌<◌, ltb, leb, String, ◌≡◌, refl, sym, ap, ap₂, ◌∙◌, Bool, true,
  false, ◌&&◌, Bool-cases, ◌⊎◌, inl, inr, some, length, All, arith,
}
use swandns.Net.Digits.{to_digit, read_digits, read_number, Stops}
use swandns.Net.Reading.{read_octet, read_ipv4, read_groups, zeros, read_ipv6}
use swandns.Net.Writing.{
  put_ipv4, put_groups, drop, put_compressed, longest_run, of_groups, segment, all_zero, put_ipv6,
}
use swandns.Net.Bounds.{IsGroup, IsSegments, IsOctets}
use swandns.Net.Text.{read_ipv4-put_ipv4}
use swandns.Net.Hex.{NoDot}
use swandns.Net.Groups.{IsEnd, colons-IsEnd, separated, read_groups-step}
use swandns.Net.Runs.{longest_run_split}
use swandns.Net.Compressed.{
  read_ipv6-zeros, read_groups-first, read_ipv6-put_compressed, NoDot-put_compressed,
}

segment-IsGroup : (n : ℕ) (gs : List ℕ) → All IsGroup gs → IsGroup (segment n gs)
segment-IsGroup n List.[] h = omega arith
segment-IsGroup zero (List.◌∷◌ g gs) (small, h) = small
segment-IsGroup (suc n) (List.◌∷◌ g gs) (small, h) = segment-IsGroup n gs h

drop-segment :
    (n : ℕ) (gs : List ℕ) → n < length gs → drop n gs ≡ List.◌∷◌ (segment n gs) (drop (suc n) gs)
drop-segment n List.[] fits = absurd (omega (arith, fits))
drop-segment zero (List.◌∷◌ g gs) fits = refl
drop-segment (suc n) (List.◌∷◌ g gs) fits = drop-segment n gs (omega (arith, fits))

drop-length : (n : ℕ) (gs : List ℕ) → n ≡ length gs → drop n gs ≡ List.[]
drop-length zero List.[] e = refl
drop-length zero (List.◌∷◌ g gs) e = absurd (omega (arith, e))
drop-length (suc n) List.[] e = refl
drop-length (suc n) (List.◌∷◌ g gs) e = drop-length n gs (omega (arith, e))

all_zero-drop :
    (n : ℕ) (gs : List ℕ) → n ≤ length gs → all_zero n gs ≡ true → gs ≡ zeros n ++ drop n gs
all_zero-drop zero gs fits h = refl
all_zero-drop (suc n) List.[] fits h = absurd (omega (arith, fits))
all_zero-drop (suc n) (List.◌∷◌ zero gs) fits h =
    ap (λ l. List.◌∷◌ 0 l) (all_zero-drop n gs (omega (arith, fits)) h)
all_zero-drop (suc n) (List.◌∷◌ (suc g) gs) fits h = cc

-- the last two of eight segments
last_two :
    (gs : List ℕ)
    → length gs ≡ 8
    → drop 6 gs ≡ List.◌∷◌ (segment 6 gs) (List.◌∷◌ (segment 7 gs) List.[])
last_two gs eight =
    drop-segment 6 gs (omega (arith, eight))
    ∙ ap (λ l. List.◌∷◌ (segment 6 gs) l)
        (drop-segment 7 gs (omega (arith, eight))
          ∙ ap (λ l. List.◌∷◌ (segment 7 gs) l) (drop-length 8 gs (omega (arith, eight))))

of_groups-IsOctets : (g h : ℕ) → IsGroup g → IsGroup h → IsOctets (of_groups g h)
unfolding of_groups
of_groups-IsOctets g h small small' =
    (omega (arith, small), omega arith, omega (arith, small'), omega arith)

-- an IPv4 address is read as the two groups that it was made of
read_groups-put_ipv4 :
    (n g h : ℕ) (is_first : Bool) (rest : String)
    → IsGroup g
    → IsGroup h
    → 0 < n
    → Stops rest
    → read_groups (suc n) is_first (separated is_first (put_ipv4 (of_groups g h) rest))
      ≡ (List.◌∷◌ g (List.◌∷◌ h List.[]), true, rest)
unfolding read_groups of_groups
read_groups-put_ipv4 n g h true rest small small' more stop =
    let some_left : ltb 0 n ≡ true = ground (arith, more) in
    let first : g / 256 * 256 + g % 256 ≡ g = omega arith in
    let second : h / 256 * 256 + h % 256 ≡ h = omega arith in
    rw (
      read_groups,
      some_left,
      read_ipv4-put_ipv4 (of_groups g h) rest (of_groups-IsOctets g h small small') stop,
      first,
      second,
    )
read_groups-put_ipv4 n g h false rest small small' more stop =
    let some_left : ltb 0 n ≡ true = ground (arith, more) in
    let first : g / 256 * 256 + g % 256 ≡ g = omega arith in
    let second : h / 256 * 256 + h % 256 ≡ h = omega arith in
    rw (
      read_groups,
      some_left,
      read_ipv4-put_ipv4 (of_groups g h) rest (of_groups-IsOctets g h small small') stop,
      first,
      second,
    )

read_ipv6-embedded :
    (gs : List ℕ) (rest : String)
    → IsSegments gs
    → all_zero 6 gs ≡ true
    → Stops rest
    → read_ipv6 (":" ∷ ":" ∷ put_ipv4 (of_groups (segment 6 gs) (segment 7 gs)) rest)
      ≡ some (record { segments = gs }, rest)
unfolding put_groups
read_ipv6-embedded gs rest (eight, small) zero_segments stop =
    let middle = put_ipv4 (of_groups (segment 6 gs) (segment 7 gs)) rest in
    let same : zeros 6 ++ List.◌∷◌ (segment 6 gs) (List.◌∷◌ (segment 7 gs) List.[]) ≡ gs =
      ap (λ l. zeros 6 ++ l) (sym (last_two gs eight))
      ∙ sym (all_zero-drop 6 gs (omega (arith, eight)) zero_segments) in
    read_ipv6-zeros List.[] (List.◌∷◌ (segment 6 gs) (List.◌∷◌ (segment 7 gs) List.[])) true _
      middle rest
      (read_groups-first 8 List.[] (":" ∷ ":" ∷ middle) tt (omega arith) (colons-IsEnd middle))
      (omega arith)
      (read_groups-put_ipv4 6 (segment 6 gs) (segment 7 gs) true rest (segment-IsGroup 6 gs small)
        (segment-IsGroup 7 gs small) (omega arith) stop)
    ∙ ap (λ l. some (record { segments = l }, rest)) same

read_ipv6-mapped :
    (gs : List ℕ) (rest : String)
    → IsSegments gs
    → all_zero 5 gs ≡ true
    → segment 5 gs ≡ 65535
    → Stops rest
    → read_ipv6 (
        ":"
        ∷ ":"
        ∷ "f"
        ∷ "f"
        ∷ "f"
        ∷ "f"
        ∷ ":"
        ∷ put_ipv4 (of_groups (segment 6 gs) (segment 7 gs)) rest)
      ≡ some (record { segments = gs }, rest)
unfolding put_groups read_number read_digits to_digit read_ipv4 read_octet
read_ipv6-mapped gs rest (eight, small) zero_segments mark stop =
    let four = put_ipv4 (of_groups (segment 6 gs) (segment 7 gs)) rest in
    let middle = "f" ∷ "f" ∷ "f" ∷ "f" ∷ ":" ∷ four in
    let two = List.◌∷◌ (segment 6 gs) (List.◌∷◌ (segment 7 gs) List.[]) in
    let ends : drop 5 gs ≡ List.◌∷◌ 65535 two =
      drop-segment 5 gs (omega (arith, eight))
      ∙ ap₂ (λ g l. List.◌∷◌ g l) mark (last_two gs eight) in
    let same : zeros 5 ++ List.◌∷◌ 65535 two ≡ gs =
      ap (λ l. zeros 5 ++ l) (sym ends)
      ∙ sym (all_zero-drop 5 gs (omega (arith, eight)) zero_segments) in
    let read : read_groups 7 true middle ≡ (List.◌∷◌ 65535 two, true, rest) =
      read_groups-step 6 65535 true middle (":" ∷ four) refl refl
      ∙ ap (λ p. (List.◌∷◌ 65535 p.0, p.1, p.2))
          (read_groups-put_ipv4 5 (segment 6 gs) (segment 7 gs) false rest
            (segment-IsGroup 6 gs small) (segment-IsGroup 7 gs small) (omega arith) stop) in
    read_ipv6-zeros List.[] (List.◌∷◌ 65535 two) true _ middle rest
      (read_groups-first 8 List.[] (":" ∷ ":" ∷ middle) tt (omega arith) (colons-IsEnd middle))
      (omega arith) read
    ∙ ap (λ l. some (record { segments = l }, rest)) same

-- the segments that hold an IPv4 address after the mark
abbrev pub IsMapped : List ℕ → Type 0
IsMapped gs = (all_zero 5 gs ≡ true) × (leb 65535 (segment 5 gs) ≡ true)

-- The three texts of an IPv6 address.
pub put_ipv6-cases :
    (gs : List ℕ) (rest : String)
    → (put_ipv6 gs rest ≡ put_compressed gs (longest_run gs 0 0 0 0 0) rest)
      ⊎ ((all_zero 6 gs ≡ true)
          × (put_ipv6 gs rest
              ≡ ":" ∷ ":" ∷ put_ipv4 (of_groups (segment 6 gs) (segment 7 gs)) rest))
      ⊎ (IsMapped gs
          × (put_ipv6 gs rest
              ≡ ":"
                ∷ ":"
                ∷ "f"
                ∷ "f"
                ∷ "f"
                ∷ "f"
                ∷ ":"
                ∷ put_ipv4 (of_groups (segment 6 gs) (segment 7 gs)) rest))
unfolding put_ipv6
put_ipv6-cases gs rest = elim (Bool-cases (all_zero 7 gs && ltb (segment 7 gs) 2)) [
  | inl special ↦ inl (rw special)
  | inr plain ↦ elim (Bool-cases (all_zero 6 gs)) [
    | inl six ↦ inr (inl (six, rw (plain, six)))
    | inr not_six ↦ elim (Bool-cases (all_zero 5 gs && leb 65535 (segment 5 gs))) [
      | inl mapped ↦
          inr (inr ((ground (arith, mapped), ground (arith, mapped)), rw (plain, not_six, mapped)))
      | inr other ↦ inl (rw (plain, not_six, other))
    ]
  ]
]

-- Every IPv6 address is read back, up to a text at which it ends.
pub read_ipv6-put_ipv6 :
    (gs : List ℕ) (rest : String)
    → IsSegments gs
    → IsEnd rest
    → Stops rest
    → read_ipv6 (put_ipv6 gs rest) ≡ some (record { segments = gs }, rest)
read_ipv6-put_ipv6 gs rest h end stop = elim (put_ipv6-cases gs rest) [
  | inl e ↦ rw e (read_ipv6-put_compressed gs _ _ rest h (longest_run_split gs) end)
  | inr (inl (six, e)) ↦ rw e (read_ipv6-embedded gs rest h six stop)
  | inr (inr ((five, large), e)) ↦
      let most : segment 5 gs < 65536 = segment-IsGroup 5 gs h.1 in
      rw e (read_ipv6-mapped gs rest h five (ground (arith, large, most)) stop)
]

pub NoDot-put_ipv6 :
    (gs : List ℕ) (rest : String) → All IsGroup gs → NoDot rest → NoDot (put_ipv6 gs rest)
unfolding to_digit
NoDot-put_ipv6 gs rest small h = elim (put_ipv6-cases gs rest) [
  | inl e ↦ rw e (NoDot-put_compressed gs (longest_run gs 0 0 0 0 0) rest small h)
  | inr (inl (_, e)) ↦ rw e refl
  | inr (inr (_, e)) ↦ rw e refl
]
