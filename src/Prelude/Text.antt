-- ===== src/Prelude/Text.antt =====
-- What the program uses of Rust's `str`: `strip_suffix(".")` and `eq_ignore_ascii_case`.
use Prim.Native.Nat.{ℕ, ◌+◌, compare, Ordering}
use Prim.Native.Char.{code}
use Prim.Native.String.{String, [], ◌∷◌, ◌++◌}
use mathlib.Core.Path.{◌≡◌, refl, sym, ap, subst, ◌∙◌}
use mathlib.Core.Bool.{Bool, true, false, ◌&&◌}
use mathlib.Core.Logic.{inl, inr}
use mathlib.Core.Option
use mathlib.Core.Option.{Option, none, some}
use text.Mathlib.Text.{◌==◌}
use text.Mathlib.TextEquality.{eq_iff}
use text.Mathlib.TextLemmas.{nil-append, cons-append}
use native.Mathlib.Omega.{arith}
use swandns.Prelude.Tests.{leb, if◌then◌else◌, Bool-cases}

-- `s.strip_suffix(".")`
unfoldable pub strip_dot : String → Option String
strip_dot [] = none
strip_dot (c ∷ s) = if (c ∷ s) == "." then some "" else Option.map (λ t. c ∷ t) (strip_dot s)

-- What was stripped is the text without its dot.
pub append_of_strip_dot : (s t : String) → strip_dot s ≡ some t → s ≡ t ++ "."
unfolding strip_dot
append_of_strip_dot [] t h = cc
append_of_strip_dot (c ∷ s) t h = elim (Bool-cases ((c ∷ s) == ".")) [
  | inl dot ↦ let e : t ≡ "" = ground arith in rw e ((eq_iff _ _).0 dot ∙ sym (nil-append "."))
  | inr other ↦
      let (u, stripped, same) = (Option.map-eq-some_iff _ _).0 (rw (other, strip_dot) at h) in
      rw (← same) (ap (λ r. c ∷ r) (append_of_strip_dot s u stripped) ∙ sym (cons-append c u "."))
]

-- A letter as `to_ascii_lowercase` has it.
unfoldable pub to_lower : ℕ → ℕ
to_lower c = if leb b'A' c && leb c b'Z' then c + 32 else c

abbrev same_code : ℕ → ℕ → Bool
same_code a b = elim (compare a b) [ Ordering.eq ↦ true | _ ↦ false ]

unfoldable pub eq_ignore_ascii_case : String → String → Bool
unfolding to_lower
eq_ignore_ascii_case [] [] = true
eq_ignore_ascii_case (c ∷ s) (d ∷ t) =
    same_code (to_lower (code c)) (to_lower (code d)) && eq_ignore_ascii_case s t
eq_ignore_ascii_case _ _ = false

pub eq_ignore_ascii_case_refl : (s : String) → eq_ignore_ascii_case s s ≡ true
unfolding eq_ignore_ascii_case
eq_ignore_ascii_case_refl [] = refl
eq_ignore_ascii_case_refl (c ∷ s) = ground (arith, eq_ignore_ascii_case_refl s)

-- No character of the text is an upper-case letter.
abbrev pub IsLower : String → Type 0
IsLower [] = Unit
IsLower (c ∷ s) = (to_lower (code c) ≡ code c) × IsLower s

pub IsLower-of_append : (s t : String) → IsLower (s ++ t) → IsLower s
IsLower-of_append [] t h = tt
IsLower-of_append (c ∷ s) t h =
    let h' : IsLower (c ∷ (s ++ t)) = subst IsLower (cons-append c s t) h in
    (h'.0, IsLower-of_append s t h'.1)

pub eq_ignore_ascii_case_comm : (s t : String) → eq_ignore_ascii_case s t ≡ eq_ignore_ascii_case t s
unfolding eq_ignore_ascii_case
eq_ignore_ascii_case_comm [] [] = refl
eq_ignore_ascii_case_comm [] (d ∷ t) = refl
eq_ignore_ascii_case_comm (c ∷ s) [] = refl
eq_ignore_ascii_case_comm (c ∷ s) (d ∷ t) = ground (arith, eq_ignore_ascii_case_comm s t)
