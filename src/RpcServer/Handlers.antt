-- ===== src/RpcServer/Handlers.antt =====
-- What a client of the gRPC service sees (src/rpc_server/records.rs), against the registry.
use swandns.Prelude.{
  ◌^◌, ◌<◌, ◌≡◌, ◌⊎◌, inl, inr, true, none, some, List, ok, err, Option-cases, returned, panicked,
}
use swandns.Messages.{UpsertRecordRequest, FindUniqueRecordRequest}
use swandns.Sqlite.{Row, SqlError, Engine, IsSqlite}
use swandns.Repository.Entries.{Entry, Registry, merge, put, remove}
use swandns.Repository.Table.{reply}
use swandns.Repository.Refinement.{
  Implements, key_query, delete_of, new_entry, find_unique-Implements, delete-Implements,
}
use swandns.Repository.Upserting.{insert_of, upsert_quiet, upsert_race}
use swandns.RpcServer.{not_found, Status, find_unique, upsert, delete}

abbrev pub missing : Status
missing = record { code = not_found; message = "record not found" }

module _ (db : Engine) (sql : IsSqlite db) where
  -- Over SQLite, a FindUnique call never panics and leaves the registry alone. It returns the entry
  -- of its key, or the status NotFound: either because there is no such entry, or because the
  -- engine failed, which a client cannot tell apart.
  pub find_unique_lem :
      (request : FindUniqueRecordRequest) (c : db.Conn) (reg : Registry db.Time)
      → Implements db c reg
      → Implements db (find_unique db request c).1 reg
        × (((e : Entry db.Time) × (reg request.name request.type ≡ some e)
              × ((find_unique db request c).0 ≡ returned (ok (reply db true e))))
            ⊎ (((reg request.name request.type ≡ none)
                  ⊎ ((x : SqlError) × ((db.query (key_query db request.name request.type) c).0
                        ≡ err x)))
                × ((find_unique db request c).0 ≡ returned (err missing))))
  unfolding find_unique
  find_unique_lem request c reg h =
      let (kept, found) = find_unique-Implements db sql request c reg h in
      (
        kept,
        elim found [
          | inr (x, failed, e) ↦ inr (inr (x, failed), rw e)
          | inl e ↦ elim (Option-cases (reg request.name request.type)) [
            | inl absent ↦ inr (inl absent, rw (e, absent))
            | inr (entry, present) ↦ inl (entry, present, rw (e, present))
          ]
        ],
      )

  -- Over SQLite, an Upsert call with a time-to-live of 32 bits returns the written entry when the
  -- engine executes both of its calls and the other tasks leave the table alone between them.
  pub upsert_returns :
      (now : db.Time) (request : UpsertRecordRequest) (between : db.Conn → db.Conn) (c : db.Conn)
      (reg : Registry db.Time) (rs : List (Row db.Value))
      → request.ttl < 2 ^ 32
      → db.rows (between (db.execute (insert_of db now request) c).1)
        ≡ db.rows (db.execute (insert_of db now request) c).1
      → Implements db c reg
      → (db.execute (insert_of db now request) c).0 ≡ ok tt
      → (db.query
          (key_query db request.name request.type)
          (between (db.execute (insert_of db now request) c).1)).0
        ≡ ok rs
      → (upsert db now between request c).0
        ≡ returned
            (ok (reply db true (merge (new_entry now request) (reg request.name request.type))))
  unfolding upsert
  upsert_returns now request between c reg rs fits quiet h done found =
      rw (upsert_quiet db sql now request between c reg rs fits quiet h done found)

  -- If a Delete of the same key comes between the two calls of an Upsert (over SQLite, with a
  -- time-to-live of 32 bits), its handler panics.
  pub upsert_panics :
      (now : db.Time) (request : UpsertRecordRequest) (between : db.Conn → db.Conn) (c : db.Conn)
      (reg : Registry db.Time)
      → request.ttl < 2 ^ 32
      → (Implements db (db.execute (insert_of db now request) c).1 (put (new_entry now request) reg)
          → Implements db
              (between (db.execute (insert_of db now request) c).1)
              (remove request.name request.type (put (new_entry now request) reg)))
      → Implements db c reg
      → (upsert db now between request c).0 ≡ panicked
  unfolding upsert
  upsert_panics now request between c reg fits others h =
      let (x, e) = upsert_race db sql now request between c reg fits others h in rw e

  -- Over SQLite, a Delete call whose statement the engine executes succeeds, whether or not there
  -- was an entry, and afterwards there is none and no other is changed; when the engine refuses the
  -- statement the handler panics, and changes nothing.
  pub delete_lem :
      (request : FindUniqueRecordRequest) (c : db.Conn) (reg : Registry db.Time)
      → Implements db c reg
      → (((db.execute (delete_of db request) c).0 ≡ ok tt)
          × ((delete db request c).0 ≡ returned (ok tt))
          × Implements db (delete db request c).1 (remove request.name request.type reg))
        ⊎ ((x : SqlError) × ((db.execute (delete_of db request) c).0 ≡ err x)
            × ((delete db request c).0 ≡ panicked)
            × Implements db (delete db request c).1 reg)
  unfolding delete
  delete_lem request c reg h = elim (delete-Implements db sql request c reg h) [
    | inl (executed, done, k) ↦ inl (executed, rw done, k)
    | inr (x, not_executed, refused, k) ↦ inr (x, not_executed, rw refused, k)
  ]
