-- ===== src/Util/Database/Migrated.antt =====
-- What `migrate_database` (src/util.rs) does to the table of a database file.
use swandns.Prelude.{
  ℕ, zero, suc, ◌≤◌, ◌≡◌, refl, ◌∙◌, ◌⊎◌, inl, inr, String, List, [], length, Result, ok, err,
  Outcome, returned, panicked, arith,
}
use swandns.Sqlite.{SqlError, Engine}
use swandns.Util.{Error}
use swandns.Util.Database.{
  Migration, Migrator, rows_after_all, drop, migrations, after_pragma, after_to_latest,
  migrate_database,
}

-- a panic ends the thread of the connection
abbrev pub after_call :
    {Conn A : Type 0} → Error → Outcome (Result Error A) × Conn → Result Error A × Conn
after_call closed (returned r, c) = (r, c)
after_call closed (panicked, c) = (err closed, c)

-- the table and the version are as before
abbrev pub IsUntouched : (db : Engine) → Migrator db.Conn → db.Conn → db.Conn → Type 0
IsUntouched db migrator c c' = (db.rows c' ≡ db.rows c) × (migrator.version c' ≡ migrator.version c)

-- the migrations that the file has not had are made, in their order
abbrev pub AreMade : (db : Engine) → Migrator db.Conn → List Migration → db.Conn → db.Conn → Type 0
AreMade db migrator ms c c' =
    (migrator.version c ≤ length ms)
    × (migrator.version c' ≡ length ms)
    × (db.rows c' ≡ rows_after_all (drop (migrator.version c) ms) (db.rows c))

-- What the documentation of the crates says.
pub record IsMigrator (db : Engine) (migrator : Migrator db.Conn) : Type 0 where
  pub pragma_set :
      (key value : String) (c : db.Conn)
      → IsUntouched db migrator c (migrator.pragma_update key value c).1
  pub migrated :
      (ms : List Migration) (c c' : db.Conn)
      → migrator.to_latest ms c ≡ (ok _, c')
      → AreMade db migrator ms c c'
  -- in a transaction
  pub not_migrated :
      (ms : List Migration) (c c' : db.Conn) (e : SqlError)
      → migrator.to_latest ms c ≡ (err e, c')
      → IsUntouched db migrator c c'
  -- the function is called, or the connection is closed
  pub called :
      (f : db.Conn → Outcome (Result Error (Unit {0})) × db.Conn) (c : db.Conn)
      → (migrator.call f c ≡ after_call migrator.closed (f c))
        ⊎ ((e : Error) × (migrator.call f c ≡ (err e, c)))

-- What `migrate_database` may do.
abbrev pub Migrates :
    (db : Engine) → Migrator db.Conn → db.Conn → Result Error (Unit {0}) × db.Conn → Type 0
Migrates db migrator c p =
    ((p.0 ≡ ok tt) × AreMade db migrator migrations c p.1)
    ⊎ ((e : Error) × (p.0 ≡ err e) × IsUntouched db migrator c p.1)

Nat-cases : (n : ℕ) → (n ≡ 0) ⊎ ((m : ℕ) × (n ≡ suc m))
Nat-cases zero = inl refl
Nat-cases (suc m) = inr (m, refl)

module _ (db : Engine) (migrator : Migrator db.Conn) (h : IsMigrator db migrator) where
  to_latest-Migrates :
      (c : db.Conn) (p : Result SqlError (Unit {0}) × db.Conn)
      → migrator.to_latest migrations c ≡ p
      → Migrates db migrator c (after_call migrator.closed (after_to_latest migrator p))
  unfolding after_to_latest
  to_latest-Migrates c (ok _, c') e = inl (refl, h.migrated migrations c c' e)
  to_latest-Migrates c (err x, c') e =
      inr (migrator.closed, refl, h.not_migrated migrations c c' x e)

  after_pragma-Migrates :
      (c : db.Conn) (p : Result SqlError (Unit {0}) × db.Conn)
      → IsUntouched db migrator c p.1
      → Migrates db migrator c (after_call migrator.closed (after_pragma migrator p))
  unfolding after_pragma
  after_pragma-Migrates c (err x, c') same = inr (migrator.closed, refl, same)
  after_pragma-Migrates c (ok _, c') (rows, version) =
      elim (to_latest-Migrates c' (migrator.to_latest migrations c') refl) [
        | inl (done, made) ↦ inl (done, rw (version, rows) at made)
        | inr (e, failed, (rows', version')) ↦ inr (e, failed, (rows' ∙ rows, version' ∙ version))
      ]

  migrate_database-Migrates : (c : db.Conn) → Migrates db migrator c (migrate_database migrator c)
  unfolding migrate_database
  migrate_database-Migrates c =
      elim (h.called (λ c. after_pragma migrator (migrator.pragma_update "journal_mode" "WAL" c))
        c) [
          | inl e ↦ rw e (
              after_pragma-Migrates c (migrator.pragma_update "journal_mode" "WAL" c)
                (h.pragma_set "journal_mode" "WAL" c))
          | inr (x, e) ↦ rw e (inr (x, refl, (refl, refl)))
        ]

  -- `migrate_database` never panics. When it succeeds, a file that had no migration has an empty
  -- table, a file that had it keeps its rows, and no other file can succeed; when it fails, the
  -- rows and the version of the file are as before.
  pub migrate_database_lem :
      (c : db.Conn)
      → (((migrate_database migrator c).0 ≡ ok tt)
          × (migrator.version (migrate_database migrator c).1 ≡ 1)
          × (((migrator.version c ≡ 0) × (db.rows (migrate_database migrator c).1 ≡ []))
              ⊎ ((migrator.version c ≡ 1) × (db.rows (migrate_database migrator c).1 ≡ db.rows c))))
        ⊎ ((e : Error) × ((migrate_database migrator c).0 ≡ err e)
            × IsUntouched db migrator c (migrate_database migrator c).1)
  migrate_database_lem c = elim (migrate_database-Migrates c) [
    | inr failed ↦ inr failed
    | inl (done, (small, version, rows)) ↦ elim (Nat-cases (migrator.version c)) [
      | inl none_made ↦ inl (done, version, inl (none_made, rw none_made at rows))
      | inr (n, some_made) ↦
          let one : migrator.version c ≡ 1 = omega (arith, some_made, small) in
          inl (done, version, inr (one, rw one at rows))
    ]
  ]
