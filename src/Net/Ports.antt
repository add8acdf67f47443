-- ===== src/Net/Ports.antt =====
-- A port, as `std::net` writes it behind an address, is read back.
use Prim.Native.Nat.{◌/◌, ◌%◌}
use Prim.Native.String.{◌∷◌}
use swandns.Prelude.{
  ℕ, ◌+◌, ◌*◌, ◌≤◌, ◌<◌, String, ◌≡◌, refl, ◌∙◌, inl, inr, Bool-cases, ap, ltb, true, none, some,
  arith,
}
use swandns.Net.Digits.{
  read_digits, read_number, digit_char, to_digit-digit_char, put_octet, read_digits-stop,
}
use swandns.Net.Writing.{put_last_three, put_port}

read_digits-port_digit :
    (largest d n n' count : ℕ) (s : String)
    → d < 10
    → n' ≡ n * 10 + d
    → n' ≤ largest
    → read_digits 10 none largest n count (digit_char d ∷ s)
      ≡ read_digits 10 none largest n' (count + 1) s
unfolding read_digits
read_digits-port_digit largest d n n' count s h e fits =
    rw (read_digits, to_digit-digit_char d h, e) (ground (arith, e, fits))

read_digits-put_last_three :
    (n n' k count : ℕ) (s : String)
    → k < 1000
    → n' ≡ n * 1000 + k
    → n' ≤ 65535
    → read_digits 10 none 65535 n count (put_last_three k s)
      ≡ read_digits 10 none 65535 n' (count + 3) s
unfolding put_last_three
read_digits-put_last_three n n' k count s h e fits =
    read_digits-port_digit 65535 (k / 100) n (n * 10 + k / 100) count
      (digit_char (k / 10 % 10) ∷ digit_char (k % 10) ∷ s) (omega (arith, h)) refl
      (omega (arith, e, fits))
    ∙ read_digits-port_digit 65535 (k / 10 % 10) (n * 10 + k / 100) (n * 100 + k / 10) (count + 1)
        (digit_char (k % 10) ∷ s) (omega arith) (omega arith) (omega (arith, e, fits))
    ∙ read_digits-port_digit 65535 (k % 10) (n * 100 + k / 10) n' (count + 1 + 1) s (omega arith)
        (omega (arith, e)) fits
    ∙ ap (λ c. read_digits 10 none 65535 n' c s) (omega arith)

-- what the loop makes of a port
read_digits-put_port :
    (n : ℕ)
    → n < 65536
    → (count : ℕ) × (0 < count)
      × (read_digits 10 none 65535 0 0 (put_port n "") ≡ some (n, count, ""))
unfolding put_port put_octet
read_digits-put_port n small = elim (Bool-cases (ltb n 1000)) [
  | inl short ↦ elim (Bool-cases (ltb n 10)) [
    | inl one ↦ (
      1,
      omega arith,
      rw (short, one)
          (read_digits-port_digit 65535 n 0 n 0 "" (ground (arith, one)) (omega arith)
              (omega (arith, small))
            ∙ read_digits-stop none 65535 n 1 "" tt),
    )
    | inr more ↦ elim (Bool-cases (ltb n 100)) [
      | inl two ↦ (
        2,
        omega arith,
        rw (short, more, two)
            (read_digits-port_digit 65535 (n / 10) 0 (n / 10) 0 (digit_char (n % 10) ∷ "")
                (ground (arith, two)) (omega arith) (omega (arith, small))
              ∙ read_digits-port_digit 65535 (n % 10) (n / 10) n 1 "" (omega arith) (omega arith)
                  (omega (arith, small))
              ∙ read_digits-stop none 65535 n 2 "" tt),
      )
      | inr three ↦ (
        3,
        omega arith,
        rw (short, more, three)
            (unfold put_last_three in
              read_digits-put_last_three 0 n n 0 "" (ground (arith, short)) (omega arith)
                (omega (arith, small))
              ∙ read_digits-stop none 65535 n 3 "" tt),
      )
    ]
  ]
  | inr long ↦ elim (Bool-cases (ltb n 10000)) [
    | inl four ↦ (
      4,
      omega arith,
      rw (long, four)
          (read_digits-port_digit 65535 (n / 1000) 0 (n / 1000) 0 (put_last_three (n % 1000) "")
              (ground (arith, four)) (omega arith) (omega (arith, small))
            ∙ read_digits-put_last_three (n / 1000) n (n % 1000) 1 "" (omega arith) (omega arith)
                (omega (arith, small))
            ∙ read_digits-stop none 65535 n 4 "" tt),
    )
    | inr five ↦ (
      5,
      omega arith,
      rw (long, five)
          (read_digits-port_digit 65535 (n / 10000) 0 (n / 10000) 0
              (digit_char (n / 1000 % 10) ∷ put_last_three (n % 1000) "") (omega (arith, small))
              (omega arith) (omega (arith, small))
            ∙ read_digits-port_digit 65535 (n / 1000 % 10) (n / 10000) (n / 1000) 1
                (put_last_three (n % 1000) "") (omega arith) (omega arith) (omega (arith, small))
            ∙ read_digits-put_last_three (n / 1000) n (n % 1000) 2 "" (omega arith) (omega arith)
                (omega (arith, small))
            ∙ read_digits-stop none 65535 n 5 "" tt),
    )
  ]
]

pub read_number-put_port :
    (n : ℕ) → n < 65536 → read_number 10 none true 65535 (put_port n "") ≡ some (n, "")
unfolding read_number
read_number-put_port n small =
    let (count, some_digits, e) = read_digits-put_port n small in rw e (ground (arith, some_digits))
