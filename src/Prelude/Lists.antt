-- ===== src/Prelude/Lists.antt =====
-- Lists: measured by native numbers, predicates on all items, and permutations of short lists and
-- of images.
use Prim.Native.Nat.{ℕ, suc, ◌+◌}
use mathlib.Core.Path.{◌≡◌, refl}
use mathlib.Core.List.{List, [], ◌∷◌, ◌++◌, Permᴰ}
use mathlib.Core.Logic.{◌⊎◌, inl, inr}
use native.Mathlib.Omega.{arith}

module _ {ℓ} {A : Type ℓ} where
  abbrev pub length : List A → ℕ
  length [] = 0
  length (x ∷ xs) = suc (length xs)

  pub length-append : (xs ys : List A) → length (xs ++ ys) ≡ length xs + length ys
  length-append [] ys = omega arith
  length-append (x ∷ xs) ys = omega (arith, length-append xs ys)

module _ {ℓ κ} {A : Type ℓ} (P : A → Type κ) where
  abbrev pub All : List A → Type κ
  All [] = Unit
  All (x ∷ xs) = P x × All xs

module _ {ℓ} {A : Type ℓ} (P : A → Type 0) where
  -- one of the items, at least
  abbrev pub Any : List A → Type 0
  Any [] = ⊥
  Any (x ∷ xs) = P x ⊎ Any xs

module _ {ℓ} {A : Type ℓ} where
  -- A permutation of the empty list, or of a list of one item, is that list.
  pub perm_nil : {l m : List A} → Permᴰ l m → m ≡ [] → l ≡ []
  perm_nil Permᴰ.nil e = refl
  perm_nil (Permᴰ.cons h p) e = cc
  perm_nil (Permᴰ.swap h k) e = cc
  perm_nil (Permᴰ.trans p q) e = perm_nil p (perm_nil q e)

  pub perm_one : {l m : List A} → Permᴰ l m → (a : A) → m ≡ a ∷ [] → l ≡ a ∷ []
  perm_one Permᴰ.nil a e = cc
  perm_one (Permᴰ.cons h p) a e = cc (perm_nil p (ground (arith, e)), h)
  perm_one (Permᴰ.swap h k) a e = ground (arith, e)
  perm_one (Permᴰ.trans p q) a e = perm_one p a (perm_one q a e)

module _ {ℓ κ} {A : Type ℓ} (P : A → Type κ) where
  pub All-perm : {l m : List A} → Permᴰ l m → All P m → All P l
  All-perm Permᴰ.nil h = tt
  All-perm (Permᴰ.cons e p) h = (rw e h.0, All-perm p h.1)
  All-perm (Permᴰ.swap e f) h = (rw e h.1.0, (rw f h.0, h.1.1))
  All-perm (Permᴰ.trans p q) h = All-perm p (All-perm q h)

pub List-cases {ℓ} :
    {A : Type ℓ} (xs : List A) → (xs ≡ []) ⊎ ((x : A) × (rest : List A) × (xs ≡ x ∷ rest))
List-cases [] = inl refl
List-cases (x ∷ xs) = inr (x, xs, refl)
