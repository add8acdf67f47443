-- ===== src/Repository/History.antt =====
-- The calls that tasks make of the one shared connection (src/record_repository.rs), in whatever
-- order they come: the upserts' INSERT and SELECT are calls of their own.
use swandns.Prelude.{◌^◌, ◌<◌, ◌≡◌, refl, none, [], inl, inr, ok, err}
use swandns.Messages.{UpsertRecordRequest, FindUniqueRecordRequest}
use swandns.Sqlite.{Query, SqlError, Engine, IsSqlite}
use swandns.Repository.{new_row, delete}
use swandns.Repository.Entries.{Registry, put, remove, find}
use swandns.Repository.Refinement.{
  Implements, Implements-of_rows, new_entry, put-Implements, delete-Implements,
}
use swandns.Repository.Upserting.{insert_of}

-- `Reaches db c reg`: from a migrated, empty database some calls lead to `c`, and `reg` records
-- the effects of those that the engine executed.
pub data Reaches (db : Engine) : db.Conn → Registry db.Time → Type 1 where
  migrated : (c : db.Conn) → db.rows c ≡ [] → Reaches db c (λ name type. none)
  inserted :
      {c : db.Conn} {reg : Registry db.Time} (c' : db.Conn) (now : db.Time)
      (request : UpsertRecordRequest)
      → Reaches db c reg
      → request.ttl < 2 ^ 32
      → db.execute (insert_of db now request) c ≡ (ok tt, c')
      → Reaches db c' (put (new_entry now request) reg)
  not_inserted :
      {c : db.Conn} {reg : Registry db.Time} (c' : db.Conn) (now : db.Time)
      (request : UpsertRecordRequest) (e : SqlError)
      → Reaches db c reg
      → db.execute (insert_of db now request) c ≡ (err e, c')
      → Reaches db c' reg
  deleted :
      {c : db.Conn} {reg : Registry db.Time} (request : FindUniqueRecordRequest)
      → Reaches db c reg
      → (delete db request c).0 ≡ ok tt
      → Reaches db (delete db request c).1 (remove request.name request.type reg)
  not_deleted :
      {c : db.Conn} {reg : Registry db.Time} (request : FindUniqueRecordRequest) (e : SqlError)
      → Reaches db c reg
      → (delete db request c).0 ≡ err e
      → Reaches db (delete db request c).1 reg
  queried :
      {c : db.Conn} {reg : Registry db.Time} (q : Query db.Value)
      → Reaches db c reg
      → Reaches db (db.query q c).1 reg

module _ (db : Engine) (sql : IsSqlite db) where
  deleted-Implements :
      (request : FindUniqueRecordRequest) (c : db.Conn) (reg : Registry db.Time)
      → Implements db c reg
      → (delete db request c).0 ≡ ok tt
      → Implements db (delete db request c).1 (remove request.name request.type reg)
  deleted-Implements request c reg h e = elim (delete-Implements db sql request c reg h) [
    | inl (_, _, k) ↦ k
    | inr (x, _, refused, _) ↦ cc
  ]

  not_deleted-Implements :
      (request : FindUniqueRecordRequest) (c : db.Conn) (reg : Registry db.Time) (x : SqlError)
      → Implements db c reg
      → (delete db request c).0 ≡ err x
      → Implements db (delete db request c).1 reg
  not_deleted-Implements request c reg x h e = elim (delete-Implements db sql request c reg h) [
    | inl (_, done, _) ↦ cc
    | inr (_, _, _, k) ↦ k
  ]

  -- Over SQLite, whatever calls the tasks have made, in whatever order, and whichever of them the
  -- engine refused: the table holds one row for each key, and the rows are the effects of the
  -- executed calls.
  pub Reaches-Implements :
      {c : db.Conn} {reg : Registry db.Time} → Reaches db c reg → Implements db c reg
  Reaches-Implements (migrated c empty) = record {
    entries = [];
    stored = empty;
    unique = tt;
    small = tt;
    view = λ name type. unfold find in refl;
  }
  Reaches-Implements (inserted {c} {reg} c' now request r fits done) =
      put-Implements db sql (new_entry now request) c c' reg fits (Reaches-Implements r)
        (unfold new_row in done)
  Reaches-Implements (not_inserted {c} c' now request e r failed) =
      Implements-of_rows db c' (sql.not_executed _ c c' e failed) (Reaches-Implements r)
  Reaches-Implements (deleted {c} {reg} request r done) =
      deleted-Implements request c reg (Reaches-Implements r) done
  Reaches-Implements (not_deleted {c} {reg} request e r failed) =
      not_deleted-Implements request c reg e (Reaches-Implements r) failed
  Reaches-Implements (queried {c} q r) =
      Implements-of_rows db (db.query q c).1 (sql.unchanged q c) (Reaches-Implements r)
