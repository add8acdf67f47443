-- ===== src/Repository/Upserting.antt =====
-- `RecordRepository::upsert` (src/record_repository.rs): two calls of the connection, between
-- which other tasks may use it.
use swandns.Prelude.{
  ◌^◌, ◌<◌, ◌≡◌, refl, ◌∙◌, ◌⊎◌, inl, inr, true, List, Result, ok, err, Result-cases, eq_refl,
}
use swandns.Messages.{UpsertRecordRequest, FindUniqueRecordRequest}
use swandns.Sqlite.{Row, Statement, insert_or_update, SqlError, no_rows, Engine, IsSqlite}
use swandns.Repository.{find_unique, new_row, after_insert, upsert}
use swandns.Repository.Entries.{Registry, merge, put, remove}
use swandns.Repository.Table.{reply}
use swandns.Repository.Refinement.{
  Implements, Implements-of_rows, answer, Reads, key_query, new_entry, find_unique-Implements,
  put-Implements,
}

abbrev pub insert_of : (db : Engine) → db.Time → UpsertRecordRequest → Statement db.Value
insert_of db now request = insert_or_update (new_row db now request)

module _ (db : Engine) (request : UpsertRecordRequest) (between : db.Conn → db.Conn) where
  after_insert-err :
      (p : Result SqlError (Unit {0}) × db.Conn) (e : SqlError)
      → p.0 ≡ err e
      → after_insert db request between p ≡ (err e, p.1)
  unfolding after_insert
  after_insert-err (ok _, c) e h = cc
  after_insert-err (err x, c) e h = cc

  after_insert-ok :
      (p : Result SqlError (Unit {0}) × db.Conn)
      → p.0 ≡ ok tt
      → after_insert db request between p
        ≡ find_unique db (record { name = request.name; type = request.type }) (between p.1)
  unfolding after_insert
  after_insert-ok (ok _, c) h = refl
  after_insert-ok (err x, c) h = cc

module _ (db : Engine) (sql : IsSqlite db) (now : db.Time) (request : UpsertRecordRequest) where
  -- Over SQLite, with a time-to-live of 32 bits, and whatever the other tasks do between the two
  -- calls, say they take the table with the new entry to `after`: if the engine refuses the INSERT,
  -- the error is returned and nothing has changed; otherwise the table holds `after`, and the reply
  -- is its entry of the key, or that there is none, or the error with which the engine fails to
  -- answer the SELECT.
  pub upsert-Implements :
      (between : db.Conn → db.Conn) (c : db.Conn) (reg after : Registry db.Time)
      → request.ttl < 2 ^ 32
      → (Implements db (db.execute (insert_of db now request) c).1 (put (new_entry now request) reg)
          → Implements db (between (db.execute (insert_of db now request) c).1) after)
      → Implements db c reg
      → ((e : SqlError) × ((db.execute (insert_of db now request) c).0 ≡ err e)
          × ((upsert db now between request c).0 ≡ err e)
          × Implements db (upsert db now between request c).1 reg)
        ⊎ (((db.execute (insert_of db now request) c).0 ≡ ok tt)
            × Implements db (upsert db now between request c).1 after
            × Reads db
                (key_query db request.name request.type)
                (between (db.execute (insert_of db now request) c).1)
                (upsert db now between request c).0
                (answer db (after request.name request.type)))
  unfolding upsert
  upsert-Implements between c reg after fits others h =
      let s = insert_of db now request in
      let c₁ = (db.execute s c).1 in
      elim (Result-cases (db.execute s c).0) [
        | inl (_, e) ↦
            let new =
              put-Implements db sql (new_entry now request) c c₁ reg fits h (λ i. (e i, c₁)) in
            let key : FindUniqueRecordRequest = record {
              name = request.name;
              type = request.type;
            } in
            let (kept, found) = find_unique-Implements db sql key (between c₁) after (others new) in
            let second = after_insert-ok db request between (db.execute s c) e in
            inr (e, rw second kept, rw second found)
        | inr (x, e) ↦
            let same = sql.not_executed s c c₁ x (λ i. (e i, c₁)) in
            let first = after_insert-err db request between (db.execute s c) x e in
            inl (x, e, rw first refl, rw first (Implements-of_rows db c₁ same h))
      ]

  -- With an engine that executes both calls, and other tasks that leave the table alone between
  -- them, the reply has the content and the time-to-live of the request and is stamped `now`; it
  -- keeps the creation time of an entry that was there before.
  pub upsert_quiet :
      (between : db.Conn → db.Conn) (c : db.Conn) (reg : Registry db.Time)
      (rs : List (Row db.Value))
      → request.ttl < 2 ^ 32
      → db.rows (between (db.execute (insert_of db now request) c).1)
        ≡ db.rows (db.execute (insert_of db now request) c).1
      → Implements db c reg
      → (db.execute (insert_of db now request) c).0 ≡ ok tt
      → (db.query
          (key_query db request.name request.type)
          (between (db.execute (insert_of db now request) c).1)).0
        ≡ ok rs
      → (upsert db now between request c).0
        ≡ ok (reply db true (merge (new_entry now request) (reg request.name request.type)))
  upsert_quiet between c reg rs fits quiet h done found =
      let c₁ = (db.execute (insert_of db now request) c).1 in
      let others = λ (k : Implements db c₁ (put (new_entry now request) reg)).
        Implements-of_rows db (between c₁) quiet k in
      elim (upsert-Implements between c reg (put (new_entry now request) reg) fits others h) [
        | inl (x, refused, _, _) ↦ cc
        | inr (_, _, inl e) ↦ e ∙ rw (eq_refl request.name, eq_refl request.type)
        | inr (_, _, inr (x, failed, _)) ↦ cc
      ]

  -- If another task deletes the key between the two calls, the request is answered with an error,
  -- though the INSERT was executed.
  pub upsert_race :
      (between : db.Conn → db.Conn) (c : db.Conn) (reg : Registry db.Time)
      → request.ttl < 2 ^ 32
      → (Implements db (db.execute (insert_of db now request) c).1 (put (new_entry now request) reg)
          → Implements db
              (between (db.execute (insert_of db now request) c).1)
              (remove request.name request.type (put (new_entry now request) reg)))
      → Implements db c reg
      → (e : SqlError) × ((upsert db now between request c).0 ≡ err e)
  upsert_race between c reg fits others h = elim (upsert-Implements between c reg _ fits others h) [
    | inl (x, _, e, _) ↦ (x, e)
    | inr (_, _, inl e) ↦ (no_rows, e ∙ rw (eq_refl request.name, eq_refl request.type))
    | inr (_, _, inr (x, _, e)) ↦ (x, e)
  ]
