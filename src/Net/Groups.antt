-- ===== src/Net/Groups.antt =====
-- Groups of an IPv6 address that are written with colons between them are read back.
use Prim.Native.String.{◌∷◌}
use mathlib.Core.List.{List}
use swandns.Prelude.{
  ℕ, zero, suc, ◌≤◌, ltb, String, ◌≡◌, refl, Bool, true, false, Bool-cases, inl, inr, Option, none,
  some, length, All, arith,
}
use swandns.Net.Digits.{◌>>=◌, to_digit, read_digits, read_number}
use swandns.Net.Reading.{expect, read_octet, read_ipv4, read_groups}
use swandns.Net.Writing.{put_group, put_groups}
use swandns.Net.Bounds.{IsGroup}
use swandns.Net.Hex.{StopsHex, read_number-put_group, NoDot, NoDot-put_group, read_ipv4-NoDot}

abbrev pub read_group : String → Option (ℕ × String)
read_group = read_number 16 (some 4) true 65535

-- neither an IPv4 address nor a group begins the text, alone or after a colon
abbrev pub NoneBegins : String → Type 0
NoneBegins s = (read_ipv4 s ≡ none) × (read_group s ≡ none)

abbrev pub NoneFollows : String → Type 0
NoneFollows s = (expect b':' s >>= read_ipv4 ≡ none) × (expect b':' s >>= read_group ≡ none)

-- a text at which groups end
pub record IsEnd (rest : String) : Type 0 where
  pub stops : StopsHex rest
  pub no_dot : NoDot rest
  pub begins : NoneBegins rest
  pub follows : NoneFollows rest

pub nothing-IsEnd : IsEnd ""
unfolding read_number read_ipv4 read_digits
nothing-IsEnd = record { stops = tt; no_dot = tt; begins = (refl, refl); follows = (refl, refl) }

pub bracket-IsEnd : (s : String) → IsEnd ("]" ∷ s)
unfolding read_number read_ipv4 to_digit read_octet read_digits
bracket-IsEnd s = record {
  stops = refl;
  no_dot = refl;
  begins = (refl, refl);
  follows = (refl, refl);
}

pub colons-IsEnd : (s : String) → IsEnd (":" ∷ ":" ∷ s)
unfolding read_number read_ipv4 to_digit read_octet read_digits
colons-IsEnd s = record {
  stops = refl;
  no_dot = refl;
  begins = (refl, refl);
  follows = (refl, refl);
}

-- a colon in front of all groups but the first
abbrev pub separated : Bool → String → String
separated true s = s
separated false s = ":" ∷ s

-- one group
pub read_groups-step :
    (n g : ℕ) (is_first : Bool) (s rest : String)
    → read_ipv4 s ≡ none
    → read_group s ≡ some (g, rest)
    → read_groups (suc n) is_first (separated is_first s) ≡ (
      List.◌∷◌ g (read_groups n false rest).0,
      (read_groups n false rest).1,
      (read_groups n false rest).2,
    )
unfolding read_groups
read_groups-step n g true s rest not_four group = elim (Bool-cases (ltb 0 n)) [
  | inl more ↦ rw (read_groups, more, not_four, group)
  | inr last ↦ rw (read_groups, last, group)
]
read_groups-step n g false s rest not_four group = elim (Bool-cases (ltb 0 n)) [
  | inl more ↦ rw (read_groups, more, not_four, group)
  | inr last ↦ rw (read_groups, last, group)
]

-- where no group comes next
pub read_groups-NoneBegins :
    (n : ℕ) (s : String) → NoneBegins s → read_groups n true s ≡ (List.[], false, s)
unfolding read_groups
read_groups-NoneBegins zero s h = refl
read_groups-NoneBegins (suc n) s (four, group) = elim (Bool-cases (ltb 0 n)) [
  | inl more ↦ rw (read_groups, more, four, group)
  | inr last ↦ rw (read_groups, last, group)
]

read_groups-NoneFollows :
    (n : ℕ) (s : String) → NoneFollows s → read_groups n false s ≡ (List.[], false, s)
unfolding read_groups
read_groups-NoneFollows zero s h = refl
read_groups-NoneFollows (suc n) s (four, group) = elim (Bool-cases (ltb 0 n)) [
  | inl more ↦ rw (read_groups, more, four, group)
  | inr last ↦ rw (read_groups, last, group)
]

pub NoDot-put_groups :
    (gs : List ℕ) (rest : String) → All IsGroup gs → NoDot rest → NoDot (put_groups gs rest)
unfolding put_groups to_digit
NoDot-put_groups List.[] rest small h = h
NoDot-put_groups (List.◌∷◌ g List.[]) rest (small, _) h = NoDot-put_group g rest small h
NoDot-put_groups (List.◌∷◌ g (List.◌∷◌ k gs)) rest (small, _) h = NoDot-put_group g _ small refl

pub read_groups-put_groups :
    (n g : ℕ) (gs : List ℕ) (is_first : Bool) (rest : String)
    → All IsGroup (List.◌∷◌ g gs)
    → length (List.◌∷◌ g gs) ≤ n
    → IsEnd rest
    → read_groups n is_first (separated is_first (put_groups (List.◌∷◌ g gs) rest))
      ≡ (List.◌∷◌ g gs, false, rest)
unfolding put_groups to_digit
read_groups-put_groups zero g gs is_first rest small fits end = absurd (omega (arith, fits))
read_groups-put_groups (suc n) g List.[] is_first rest (small, all) fits end = rw (
  read_groups-step n g is_first (put_group g rest) rest
      (read_ipv4-NoDot (put_group g rest) (NoDot-put_group g rest small end.no_dot))
      (read_number-put_group g rest small end.stops),
  read_groups-NoneFollows n rest end.follows,
)
read_groups-put_groups (suc n) g (List.◌∷◌ k gs) is_first rest (small, all) fits end =
    let next = ":" ∷ put_groups (List.◌∷◌ k gs) rest in
    rw (
      read_groups-step n g is_first (put_group g next) next
          (read_ipv4-NoDot (put_group g next) (NoDot-put_group g next small refl))
          (read_number-put_group g next small refl),
      read_groups-put_groups n k gs false rest all (omega (arith, fits)) end,
    )
