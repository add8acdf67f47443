-- ===== src/Repository/Listing.antt =====
-- `RecordRepository::list` (src/record_repository.rs): the whole table, in the engine's order.
use mathlib.Core.List.{Permᴰ}
use mathlib.Core.Path.{subst}
use swandns.Prelude.{
  pos, leb_ℤ, ℕ, suc, String, ◌≡◌, refl, ◌∙◌, ◌⊎◌, inl, inr, List, [], ◌∷◌, map, ok, err,
  Result-cases, All, All-perm, eq_iff, arith,
}
use swandns.Messages.{RecordReply}
use swandns.Sqlite.{select_all, SqlError, answers, Engine, IsSqlite}
use swandns.Repository.{is_healthy, read_rows, list}
use swandns.Repository.Entries.{Entry, Registry, find, IsUnique, HasSmallTtl}
use swandns.Repository.Table.{encode, reply, read_row-encode}
use swandns.Repository.Refinement.{Implements, Implements-of_rows}

-- A permutation of an image is the image of a permutation.
perm_map {ℓ κ} :
    {A : Type ℓ} {B : Type κ} (f : A → B) {l m : List B}
    → Permᴰ l m
    → (xs : List A) → m ≡ map f xs
    → (bs : List A) × (l ≡ map f bs) × Permᴰ bs xs
perm_map f Permᴰ.nil [] e = ([], refl, Permᴰ.nil)
perm_map f Permᴰ.nil (a ∷ xs) e = cc
perm_map f (Permᴰ.cons h p) [] e = cc
perm_map f (Permᴰ.cons h p) (a ∷ xs) e =
    let (bs, same, q) = perm_map f p xs (ground (arith, e)) in
    (a ∷ bs, ground (arith, e, h, same), Permᴰ.cons refl q)
perm_map f (Permᴰ.swap h k) [] e = cc
perm_map f (Permᴰ.swap h k) (a ∷ []) e = ground (arith, e)
perm_map f (Permᴰ.swap h k) (a ∷ b ∷ xs) e =
    (b ∷ a ∷ xs, ground (arith, e, h, k), Permᴰ.swap refl refl)
perm_map f (Permᴰ.trans p q) xs e =
    let (bs, same, r) = perm_map f q xs e in
    let (cs, same', r') = perm_map f p bs same in (cs, same', Permᴰ.trans r' r)

module _ {T : Type 0} where
  abbrev Agrees : List (Entry T) → List (Entry T) → Type 0
  Agrees m l = IsUnique l × ((name type : String) → find name type l ≡ find name type m)

  find_swap :
      (a b : Entry T) (l : List (Entry T)) → IsUnique (a ∷ b ∷ l) → Agrees (a ∷ b ∷ l) (b ∷ a ∷ l)
  unfolding find
  find_swap a b l (ua, (ub, u)) = (
    (
      ground (
        arith,
        ua,
        ub,
        eq_iff a.name b.name,
        eq_iff a.type b.type,
        eq_iff b.name a.name,
        eq_iff b.type a.type,
      ),
      (ground (arith, ua), u),
    ),
    λ name type. ground (
      arith,
      ua,
      eq_iff a.name name,
      eq_iff a.type type,
      eq_iff b.name name,
      eq_iff b.type type,
      eq_iff b.name a.name,
      eq_iff b.type a.type,
    ),
  )

  find_perm : {l m : List (Entry T)} → Permᴰ l m → IsUnique m → Agrees m l
  unfolding find
  find_perm Permᴰ.nil u = (tt, λ name type. refl)
  find_perm (Permᴰ.cons {a} {b} {l₁} {l₂} h p) u =
      let (v, same) = find_perm p u.1 in
      rw h ((same b.name b.type ∙ u.0, v), λ name type. rw (same name type))
  find_perm (Permᴰ.swap {a} {b} {a'} {b'} {l} h k) u =
      let e : (b' ∷ a' ∷ l) ≡ (a ∷ b ∷ l) = cc (h, k) in
      subst (Agrees (a' ∷ b' ∷ l)) e (find_swap a' b' l u)
  find_perm (Permᴰ.trans p q) u =
      let (v, same) = find_perm q u in
      let (w, same') = find_perm p v in (w, λ name type. same' name type ∙ same name type)

module _ (db : Engine) (now : ℕ → db.Time) where
  -- the replies for entries, the first of which is read at `now i`: healthy for seven minutes
  abbrev pub replies : ℕ → List (Entry db.Time) → List RecordReply
  replies i [] = []
  replies i (e ∷ es) =
      reply db (leb_ℤ (db.minus (now i) e.updated_at) (pos 420000000000)) e ∷ replies (suc i) es

module _ (db : Engine) (sql : IsSqlite db) (now : ℕ → db.Time) where
  read_rows-encode :
      (i : ℕ) (es : List (Entry db.Time))
      → All HasSmallTtl es
      → read_rows db now i (map (encode db) es) ≡ ok (replies db now i es)
  unfolding read_rows is_healthy
  read_rows-encode i [] h = refl
  read_rows-encode i (e ∷ es) h =
      rw (read_row-encode db sql (is_healthy db (now i)) e h.0, read_rows-encode (suc i) es h.1)

  -- Over SQLite, a listing leaves the registry alone. It returns a reply for each entry of the
  -- registry, each key once and no other, flagged healthy when the entry was updated at most seven
  -- minutes before it is read; or the error with which the engine fails to answer the query.
  pub list-Implements :
      (c : db.Conn) (reg : Registry db.Time)
      → Implements db c reg
      → Implements db (list db now c).1 reg
        × (((es : List (Entry db.Time)) × IsUnique es
              × ((name type : String) → find name type es ≡ reg name type)
              × ((list db now c).0 ≡ ok (replies db now 0 es)))
            ⊎ ((e : SqlError) × ((db.query select_all c).0 ≡ err e) × ((list db now c).0 ≡ err e)))
  unfolding list answers
  list-Implements c reg h = (
    Implements-of_rows db (db.query select_all c).1 (sql.unchanged select_all c) h,
    elim (Result-cases (db.query select_all c).0) [
      | inl (rs, e) ↦
          let c' = (db.query select_all c).1 in
          let p = sql.answered select_all c c' rs (λ i. (e i, c')) in
          let (es, same, q) = perm_map (encode db) p h.entries h.stored in
          let (u, view) = find_perm q h.unique in
          let fits = All-perm HasSmallTtl q h.small in
          inl (
            es,
            u,
            λ name type. view name type ∙ h.view name type,
            rw (e, same) (read_rows-encode 0 es fits),
          )
      | inr (x, e) ↦ inr (x, e, rw e)
    ],
  )
