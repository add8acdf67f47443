-- ===== src/Net/Runs.antt =====
-- The run of zeros that the text of an IPv6 address leaves out.
use mathlib.Core.List.{List, ◌++◌, append_assoc, append-nil}
use swandns.Prelude.{
  ℕ, zero, suc, ◌+◌, ◌<◌, ltb, ◌≡◌, refl, sym, ap, ◌∙◌, Bool-cases, inl, inr, if◌then◌else◌, length,
  length-append, arith,
}
use swandns.Net.Reading.{zeros}
use swandns.Net.Writing.{longest_run, take, drop}

pub length-zeros : (n : ℕ) → length (zeros n) ≡ n
length-zeros zero = refl
length-zeros (suc n) = ap suc (length-zeros n)

zeros-snoc : (n : ℕ) → zeros n ++ List.◌∷◌ 0 List.[] ≡ zeros (suc n)
zeros-snoc zero = refl
zeros-snoc (suc n) = ap (λ zs. List.◌∷◌ 0 zs) (zeros-snoc n)

-- `len` zeros from `start` on
pub record IsRun (xs : List ℕ) (start len : ℕ) : Type 0 where
  pub before : List ℕ
  pub after : List ℕ
  pub split : xs ≡ before ++ zeros len ++ after
  pub at_start : length before ≡ start

-- the run that ends where the list does
record IsCurrent (xs : List ℕ) (start len : ℕ) : Type 0 where
  pub before : List ℕ
  pub split : xs ≡ before ++ zeros len
  pub at_start : 0 < len → start + len ≡ length xs

current-IsRun :
    (xs : List ℕ) (start len : ℕ) → IsCurrent xs start len → 0 < len → IsRun xs start len
current-IsRun xs start len h more = record {
  before = h.before;
  after = List.[];
  split = h.split ∙ sym (append-nil (h.before ++ zeros len));
  at_start = omega (
    arith,
    h.at_start more,
    ap length h.split,
    length-append h.before (zeros len),
    length-zeros len,
  );
}

append-IsRun : (xs ys : List ℕ) (start len : ℕ) → IsRun xs start len → IsRun (xs ++ ys) start len
append-IsRun xs ys start len h = record {
  before = h.before;
  after = h.after ++ ys;
  split = ap (λ l. l ++ ys) h.split ∙ append_assoc (h.before ++ zeros len) h.after ys;
  at_start = h.at_start;
}

append-IsCurrent :
    (xs : List ℕ) (start len : ℕ)
    → IsCurrent xs start len
    → IsCurrent (xs ++ List.◌∷◌ 0 List.[]) (if ltb 0 len then start else length xs) (len + 1)
append-IsCurrent xs start len h =
    let one_more : suc len ≡ len + 1 = omega arith in
    record {
      before = h.before;
      split =
          ap (λ l. l ++ List.◌∷◌ 0 List.[]) h.split
          ∙ append_assoc h.before (zeros len) (List.◌∷◌ 0 List.[])
          ∙ ap (λ zs. h.before ++ zs) (zeros-snoc len)
          ∙ ap (λ n. h.before ++ zeros n) one_more;
      at_start = λ more. elim (Bool-cases (ltb 0 len)) [
        | inl longer ↦ rw longer (
            omega
              (arith, h.at_start (ground (arith, longer)), length-append xs (List.◌∷◌ 0 List.[])))
        | inr fresh ↦
            let none_yet : len ≡ 0 = ground (arith, fresh) in
            rw fresh (omega (arith, none_yet, length-append xs (List.◌∷◌ 0 List.[])))
      ];
    }

no-IsCurrent : (xs : List ℕ) (start : ℕ) → IsCurrent xs start 0
no-IsCurrent xs start = record {
  before = xs;
  split = sym (append-nil xs);
  at_start = λ more. absurd (omega (arith, more));
}

longest_run-IsRun :
    (rest xs : List ℕ) (i start len best_start best_len : ℕ)
    → i ≡ length xs
    → IsCurrent xs start len
    → IsRun xs best_start best_len
    → IsRun
        (xs ++ rest)
        (longest_run rest i start len best_start best_len).0
        (longest_run rest i start len best_start best_len).1
unfolding longest_run
longest_run-IsRun List.[] xs i start len best_start best_len at current best =
    append-IsRun xs List.[] best_start best_len best
longest_run-IsRun (List.◌∷◌ (suc n) rest) xs i start len best_start best_len at current best =
    let more = xs ++ List.◌∷◌ (suc n) List.[] in
    rw (sym (append_assoc xs (List.◌∷◌ (suc n) List.[]) rest)) (
      longest_run-IsRun rest more (i + 1) 0 0 best_start best_len
        (omega (arith, at, length-append xs (List.◌∷◌ (suc n) List.[]))) (no-IsCurrent more 0)
        (append-IsRun xs (List.◌∷◌ (suc n) List.[]) best_start best_len best))
longest_run-IsRun (List.◌∷◌ zero rest) xs i start len best_start best_len at current best =
    let more = xs ++ List.◌∷◌ 0 List.[] in
    let start' = if ltb 0 len then start else length xs in
    let current' = append-IsCurrent xs start len current in
    let at' : i + 1 ≡ length more = omega (arith, at, length-append xs (List.◌∷◌ 0 List.[])) in
    elim (Bool-cases (ltb best_len (len + 1))) [
      | inl longer ↦
          rw (sym (append_assoc xs (List.◌∷◌ 0 List.[]) rest), longer, at)
            (longest_run-IsRun rest more (length xs + 1) start' (len + 1) start' (len + 1)
              (omega (arith, length-append xs (List.◌∷◌ 0 List.[]))) current'
              (current-IsRun more start' (len + 1) current' (omega arith)))
      | inr shorter ↦
          rw (sym (append_assoc xs (List.◌∷◌ 0 List.[]) rest), shorter, at)
            (longest_run-IsRun rest more (length xs + 1) start' (len + 1) best_start best_len
              (omega (arith, length-append xs (List.◌∷◌ 0 List.[]))) current'
              (append-IsRun xs (List.◌∷◌ 0 List.[]) best_start best_len best))
    ]

take-append : (xs ys : List ℕ) → take (length xs) (xs ++ ys) ≡ xs
take-append List.[] ys = refl
take-append (List.◌∷◌ x xs) ys = ap (λ l. List.◌∷◌ x l) (take-append xs ys)

drop-append : (xs ys : List ℕ) → drop (length xs) (xs ++ ys) ≡ ys
drop-append List.[] ys = refl
drop-append (List.◌∷◌ x xs) ys = drop-append xs ys

-- The segments are those before the run, zeros, and those behind it.
pub run_split :
    (xs : List ℕ) (start len : ℕ)
    → IsRun xs start len
    → xs ≡ take start xs ++ zeros len ++ drop (start + len) xs
run_split xs start len h =
    let tail = zeros len ++ h.after in
    let front : take start xs ≡ h.before =
      ap (λ n. take n xs) (sym h.at_start)
      ∙ ap (take (length h.before)) (h.split ∙ append_assoc h.before (zeros len) h.after)
      ∙ take-append h.before tail in
    let ends : length (h.before ++ zeros len) ≡ start + len =
      omega (arith, h.at_start, length-append h.before (zeros len), length-zeros len) in
    let back : drop (start + len) xs ≡ h.after =
      ap (λ n. drop n xs) (sym ends)
      ∙ ap (drop (length (h.before ++ zeros len))) h.split
      ∙ drop-append (h.before ++ zeros len) h.after in
    rw (front, back) h.split

pub longest_run_split :
    (xs : List ℕ) → IsRun xs (longest_run xs 0 0 0 0 0).0 (longest_run xs 0 0 0 0 0).1
longest_run_split xs =
    longest_run-IsRun xs List.[] 0 0 0 0 0 refl (no-IsCurrent List.[] 0)
      (record { before = List.[]; after = List.[]; split = refl; at_start = refl })
