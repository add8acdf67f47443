-- ===== src/Repository.antt =====
-- `RecordRepository` (src/record_repository.rs) over an engine. An operation takes the connection
-- and returns its result beside the connection that it leaves. The clock is an argument: `now` is
-- one reading of `OffsetDateTime::now_utc()`, and `now i` the reading at the i-th row of a listing.
pub mod Entries
pub mod Table
pub mod Refinement
pub mod Upserting
pub mod Listing
pub mod History
pub mod Fixtures
mod Tests
use swandns.Prelude.{
  ℕ, suc, ◌*◌, ◌^◌, ℤ, pos, leb_ℤ, Bool, true, List, [], ◌∷◌, Result, ok, err, ◌>>=◌,
}
use swandns.Messages.{UpsertRecordRequest, RecordReply, FindUniqueRecordRequest}
use swandns.Sqlite.{
  Row, insert_or_update, delete_where, select_where, select_all, SqlError, no_rows, Engine,
}

-- seven minutes, in the nanoseconds of a `Duration`
abbrev pub healthy_age : ℤ
healthy_age = pos (7 * 60 * 10 ^ 9)

module _ (db : Engine) where
  open db use {Value, Time, Conn}

  -- The closure that reads a row of either SELECT, after its `healthy` flag is computed from the
  -- row's `updated_at`.
  unfoldable pub read_row : (Time → Bool) → Row Value → Result SqlError RecordReply
  read_row health row = do
    created_at ← db.get_time row.created_at
    updated_at ← db.get_time row.updated_at
    name ← db.get_text row.name
    type ← db.get_text row.type
    content ← db.get_text row.content
    ttl ← db.get_u32 row.ttl
    ok (record {
      name = name;
      type = type;
      content = content;
      ttl = ttl;
      created_at = db.unix_timestamp created_at;
      updated_at = db.unix_timestamp updated_at;
      healthy = health updated_at;
    })

  -- `query_row`: the first row, or `QueryReturnedNoRows`
  unfoldable pub first_row : Result SqlError (List (Row Value)) → Result SqlError RecordReply
  unfolding read_row
  first_row (err e) = err e
  first_row (ok []) = err no_rows
  first_row (ok (row ∷ _)) = read_row (λ _. true) row

  unfoldable pub find_unique : FindUniqueRecordRequest → Conn → Result SqlError RecordReply × Conn
  unfolding first_row
  find_unique request c =
      let (found, c') =
        db.query (select_where (db.of_text request.name) (db.of_text request.type)) c in
      (first_row found, c')

  -- the row that the INSERT binds
  unfoldable pub new_row : Time → UpsertRecordRequest → Row Value
  new_row now request = record {
    name = db.of_text request.name;
    type = db.of_text request.type;
    content = db.of_text request.value;
    ttl = db.of_u32 request.ttl;
    created_at = db.of_time now;
    updated_at = db.of_time now;
  }

  after_insert :
      UpsertRecordRequest
      → (Conn → Conn)
      → Result SqlError (Unit {0}) × Conn
      → Result SqlError RecordReply × Conn
  unfolding find_unique
  after_insert request between (err e, c) = (err e, c)
  after_insert request between (ok _, c) =
      find_unique (record { name = request.name; type = request.type }) (between c)

  -- Between the two calls of the connection other tasks may use it: `between` is what they do.
  unfoldable pub upsert :
      Time → (Conn → Conn) → UpsertRecordRequest → Conn → Result SqlError RecordReply × Conn
  unfolding new_row after_insert
  upsert now between request c =
      after_insert request between (db.execute (insert_or_update (new_row now request)) c)

  unfoldable pub is_healthy : Time → Time → Bool
  is_healthy now updated_at = leb_ℤ (db.minus now updated_at) healthy_age

  -- `query_map` and `collect`: the first row that cannot be read ends it
  unfoldable pub read_rows : (ℕ → Time) → ℕ → List (Row Value) → Result SqlError (List RecordReply)
  unfolding read_row is_healthy
  read_rows now i [] = ok []
  read_rows now i (row ∷ rows) = do
    r ← read_row (is_healthy (now i)) row
    rs ← read_rows now (suc i) rows
    ok (r ∷ rs)

  unfoldable pub list : (ℕ → Time) → Conn → Result SqlError (List RecordReply) × Conn
  unfolding read_rows
  list now c = let (found, c') = db.query select_all c in (found >>= read_rows now 0, c')

  unfoldable pub delete : FindUniqueRecordRequest → Conn → Result SqlError (Unit {0}) × Conn
  delete request c = db.execute (delete_where (db.of_text request.name) (db.of_text request.type)) c
