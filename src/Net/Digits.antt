-- ===== src/Net/Digits.antt =====
-- Digits of numbers as `std::net` reads and writes them. A reader returns what it read and the rest
-- of the text; a writer puts a number in front of a text.
use Prim.Native.Char.{Char, code}
use Prim.Native.Nat.{◌/◌, ◌%◌}
use Prim.Native.String.{[], ◌∷◌}
use swandns.Prelude.{
  Bool-cases, inl, inr, ap, ℕ, zero, suc, ◌+◌, ◌-◌, ◌*◌, ltb, leb, String, ◌≡◌, refl, Bool, true,
  false, not, ◌&&◌, Option, none, some, if◌then◌else◌, arith, ◌<◌, ◌≤◌,
}

infixl 5 ◌>>=◌
-- the operator `?` of the readers
abbrev pub ◌>>=◌ {ℓ κ} : {A : Type ℓ} {B : Type κ} → Option A → (A → Option B) → Option B
none >>= f = none
some a >>= f = f a

-- `char::to_digit`
unfoldable pub to_digit : ℕ → Char → Option ℕ
to_digit radix c =
    if leb b'0' (code c) && leb (code c) b'9'
    then some (code c - 48)
    else if ltb 10 radix && leb b'a' (code c) && leb (code c) b'f'
    then some (code c - 87)
    else if ltb 10 radix && leb b'A' (code c) && leb (code c) b'F'
    then some (code c - 55)
    else none

-- The loop of `read_number`: the number so far, how many digits it has, and the most digits and the
-- largest number that are allowed.
unfoldable pub read_digits : ℕ → Option ℕ → ℕ → ℕ → ℕ → String → Option (ℕ × ℕ × String)
unfolding to_digit
read_digits radix most largest n count [] = some (n, count, [])
read_digits radix most largest n count (c ∷ s) = elim (to_digit radix c) [
  | none ↦ some (n, count, c ∷ s)
  | some d ↦
      if ltb largest (n * radix + d)
      then none
      else if elim most [ none ↦ false | some m ↦ ltb m (count + 1) ]
      then none
      else read_digits radix most largest (n * radix + d) (count + 1) s
]

abbrev starts_with_zero : String → Bool
starts_with_zero [] = false
starts_with_zero (c ∷ s) = leb (code c) b'0' && leb b'0' (code c)

-- `read_number`
unfoldable pub read_number : ℕ → Option ℕ → Bool → ℕ → String → Option (ℕ × String)
unfolding read_digits
read_number radix most allow_zero_prefix largest s = do
  (n, count, rest) ← read_digits radix most largest 0 0 s
  if ltb count 1
      then none
      else if not allow_zero_prefix && starts_with_zero s && ltb 1 count
      then none
      else some (n, rest)

abbrev pub char_at : String → ℕ → Char
char_at [] i = "0"
char_at (c ∷ s) zero = c
char_at (c ∷ s) (suc i) = char_at s i

abbrev pub digit_char : ℕ → Char
digit_char d = char_at "0123456789abcdef" d

-- an octet in decimal
unfoldable pub put_octet : ℕ → String → String
put_octet n rest =
    if ltb n 10
    then digit_char n ∷ rest
    else if ltb n 100
    then digit_char (n / 10) ∷ digit_char (n % 10) ∷ rest
    else digit_char (n / 100) ∷ digit_char (n / 10 % 10) ∷ digit_char (n % 10) ∷ rest

abbrev pub all_below : (ℕ → Bool) → ℕ → Bool
all_below p zero = true
all_below p (suc n) = all_below p n && p n

pub all_below_lem : (p : ℕ → Bool) (n d : ℕ) → all_below p n ≡ true → d < n → p d ≡ true
all_below_lem p zero d h less = absurd (omega (arith, less))
all_below_lem p (suc n) d h less = elim (Bool-cases (ltb d n)) [
  | inl below ↦ all_below_lem p n d (ground (arith, h)) (ground (arith, below))
  | inr not_below ↦ let e : d ≡ n = ground (arith, not_below, less) in rw e (ground (arith, h))
]

abbrev pub is_same : ℕ → Option ℕ → Bool
is_same d none = false
is_same d (some e) = leb d e && leb e d

pub is_same_lem : (d : ℕ) (o : Option ℕ) → is_same d o ≡ true → o ≡ some d
is_same_lem d none h = ground (arith, h)
is_same_lem d (some e) h = ap some (ground (arith, h))

pub to_digit-digit_char : (d : ℕ) → d < 10 → to_digit 10 (digit_char d) ≡ some d
unfolding to_digit
to_digit-digit_char d h =
    is_same_lem d _ (all_below_lem (λ d. is_same d (to_digit 10 (digit_char d))) 10 d refl h)

-- a text at which the reading of a decimal number ends
abbrev pub Stops : String → Type 0
Stops [] = Unit
Stops (c ∷ s) = to_digit 10 c ≡ none

pub read_digits-stop :
    (most : Option ℕ) (largest n count : ℕ) (s : String)
    → Stops s
    → read_digits 10 most largest n count s ≡ some (n, count, s)
unfolding read_digits
read_digits-stop most largest n count [] h = refl
read_digits-stop most largest n count (c ∷ s) h = rw (read_digits, h)

-- what a decimal digit does to the loop
read_digits-digit :
    (most largest d n n' count : ℕ) (s : String)
    → d < 10
    → n' ≡ n * 10 + d
    → n' ≤ largest
    → count < most
    → read_digits 10 (some most) largest n count (digit_char d ∷ s)
      ≡ read_digits 10 (some most) largest n' (count + 1) s
unfolding read_digits
read_digits-digit most largest d n n' count s h e fits short =
    rw (read_digits, to_digit-digit_char d h, e) (ground (arith, e, fits, short))

starts_with_zero-digit_char :
    (d : ℕ) (s : String) → 0 < d → d < 10 → starts_with_zero (digit_char d ∷ s) ≡ false
starts_with_zero-digit_char zero s pos h = absurd (omega (arith, pos))
starts_with_zero-digit_char (suc d) s pos h =
    ground
      (arith, all_below_lem (λ d. ltb 48 (code (digit_char (suc d)))) 9 d refl (omega (arith, h)))

-- An octet is read back, up to the text behind it.
pub read_number-put_octet :
    (n : ℕ) (rest : String)
    → n < 256
    → Stops rest
    → read_number 10 (some 3) false 255 (put_octet n rest) ≡ some (n, rest)
unfolding read_number put_octet
read_number-put_octet n rest small stop = elim (Bool-cases (ltb n 10)) [
  | inl one ↦
      rw
        (
          one,
          read_digits-digit 3 255 n 0 n 0 rest (ground (arith, one)) (omega arith)
              (omega (arith, small)) (omega arith),
          read_digits-stop (some 3) 255 n 1 rest stop,
        )
        (ground arith)
  | inr more ↦ elim (Bool-cases (ltb n 100)) [
    | inl two ↦ rw (
      more,
      two,
      read_digits-digit 3 255 (n / 10) 0 (n / 10) 0 (digit_char (n % 10) ∷ rest)
          (ground (arith, two)) (omega arith) (omega (arith, small)) (omega arith),
      read_digits-digit 3 255 (n % 10) (n / 10) n 1 rest (omega arith) (omega arith)
          (omega (arith, small)) (omega arith),
      read_digits-stop (some 3) 255 n 2 rest stop,
      starts_with_zero-digit_char (n / 10) (digit_char (n % 10) ∷ rest) (ground (arith, more))
          (ground (arith, two)),
    )
    | inr three ↦ rw (
      more,
      three,
      read_digits-digit 3 255 (n / 100) 0 (n / 100) 0
          (digit_char (n / 10 % 10) ∷ digit_char (n % 10) ∷ rest) (omega (arith, small))
          (omega arith) (omega (arith, small)) (omega arith),
      read_digits-digit 3 255 (n / 10 % 10) (n / 100) (n / 10) 1 (digit_char (n % 10) ∷ rest)
          (omega arith) (omega arith) (omega (arith, small)) (omega arith),
      read_digits-digit 3 255 (n % 10) (n / 10) n 2 rest (omega arith) (omega arith)
          (omega (arith, small)) (omega arith),
      read_digits-stop (some 3) 255 n 3 rest stop,
      starts_with_zero-digit_char (n / 100) (digit_char (n / 10 % 10) ∷ digit_char (n % 10) ∷ rest)
          (ground (arith, three)) (omega (arith, small)),
    )
  ]
]
