-- ===== src/Net/Compressed.antt =====
-- The text of an IPv6 address is read back as that address.
use Prim.Native.String.{◌∷◌}
use mathlib.Core.List.{List, ◌++◌}
use swandns.Prelude.{
  ℕ, zero, suc, ◌+◌, ◌-◌, ◌≤◌, ◌<◌, ltb, leb, String, ◌≡◌, refl, sym, ap, ◌∙◌, Bool, true, false,
  Bool-cases, inl, inr, some, length, length-append, All, arith,
}
use swandns.Net.Digits.{to_digit}
use swandns.Net.Reading.{read_groups, zeros, read_ipv6}
use swandns.Net.Writing.{put_groups, take, drop, put_compressed}
use swandns.Net.Bounds.{IsGroup, IsSegments}
use swandns.Net.Hex.{NoDot}
use swandns.Net.Groups.{
  IsEnd, colons-IsEnd, read_groups-put_groups, read_groups-NoneBegins, NoDot-put_groups,
}
use swandns.Net.Runs.{IsRun, run_split, length-zeros}

-- all groups are there
read_ipv6-full :
    (gs : List ℕ) (s rest : String)
    → read_groups 8 true s ≡ (gs, false, rest)
    → length gs ≡ 8
    → read_ipv6 s ≡ some (record { segments = gs }, rest)
unfolding read_ipv6
read_ipv6-full gs s rest e len = rw (read_ipv6, e, len)

-- two colons stand for the zeros
pub read_ipv6-zeros :
    (head tail : List ℕ) (is_ipv4 : Bool) (s middle rest : String)
    → read_groups 8 true s ≡ (head, false, ":" ∷ ":" ∷ middle)
    → length head < 8
    → read_groups (7 - length head) true middle ≡ (tail, is_ipv4, rest)
    → read_ipv6 s
      ≡ some (record { segments = head ++ zeros (8 - length head - length tail) ++ tail }, rest)
unfolding read_ipv6
read_ipv6-zeros head tail is_ipv4 s middle rest before short after =
    let part : leb 8 (length head) ≡ false = ground (arith, short) in
    rw (read_ipv6, before, part, after)

-- any number of groups from the beginning
pub read_groups-first :
    (n : ℕ) (gs : List ℕ) (rest : String)
    → All IsGroup gs
    → length gs ≤ n
    → IsEnd rest
    → read_groups n true (put_groups gs rest) ≡ (gs, false, rest)
unfolding put_groups
read_groups-first n List.[] rest small fits end = read_groups-NoneBegins n rest end.begins
read_groups-first n (List.◌∷◌ g gs) rest small fits end =
    read_groups-put_groups n g gs true rest small fits end

pub take-All : (n : ℕ) (gs : List ℕ) → All IsGroup gs → All IsGroup (take n gs)
take-All zero gs h = tt
take-All (suc n) List.[] h = tt
take-All (suc n) (List.◌∷◌ g gs) (small, h) = (small, take-All n gs h)

drop-All : (n : ℕ) (gs : List ℕ) → All IsGroup gs → All IsGroup (drop n gs)
drop-All zero gs h = h
drop-All (suc n) List.[] h = tt
drop-All (suc n) (List.◌∷◌ g gs) (small, h) = drop-All n gs h

pub read_ipv6-put_compressed :
    (gs : List ℕ) (start len : ℕ) (rest : String)
    → IsSegments gs
    → IsRun gs start len
    → IsEnd rest
    → read_ipv6 (put_compressed gs (start, len) rest) ≡ some (record { segments = gs }, rest)
unfolding put_compressed
read_ipv6-put_compressed gs start len rest (eight, small) run end = elim (Bool-cases (ltb 1 len)) [
  | inr short ↦ rw short (
      read_ipv6-full gs (put_groups gs rest) rest
        (read_groups-first 8 gs rest small (omega (arith, eight)) end) eight)
  | inl long ↦
      let head = take start gs in
      let tail = drop (start + len) gs in
      let split : gs ≡ head ++ zeros len ++ tail = run_split gs start len run in
      let more : 1 < len = ground (arith, long) in
      let total : length head + len + length tail ≡ 8 = omega (
        arith,
        eight,
        ap length split,
        length-append (head ++ zeros len) tail,
        length-append head (zeros len),
        length-zeros len,
      ) in
      let left : len ≡ 8 - length head - length tail = omega (arith, total) in
      let middle = put_groups tail rest in
      rw long (
        read_ipv6-zeros head tail false (put_groups head (":" ∷ ":" ∷ middle)) middle rest
          (read_groups-first 8 head (":" ∷ ":" ∷ middle) (take-All start gs small)
            (omega (arith, total)) (colons-IsEnd middle))
          (omega (arith, total, more))
          (read_groups-first (7 - length head) tail rest (drop-All (start + len) gs small)
            (omega (arith, total, more)) end)
        ∙ ap (λ n. some (record { segments = head ++ zeros n ++ tail }, rest)) (sym left)
        ∙ ap (λ l. some (record { segments = l }, rest)) (sym split))
]

pub NoDot-put_compressed :
    (gs : List ℕ) (run : ℕ × ℕ) (rest : String)
    → All IsGroup gs
    → NoDot rest
    → NoDot (put_compressed gs run rest)
unfolding put_compressed to_digit
NoDot-put_compressed gs (start, len) rest small h = elim (Bool-cases (ltb 1 len)) [
  | inl long ↦ rw long (NoDot-put_groups (take start gs) _ (take-All start gs small) refl)
  | inr short ↦ rw short (NoDot-put_groups gs rest small h)
]
