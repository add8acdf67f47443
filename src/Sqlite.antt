-- ===== src/Sqlite.antt =====
-- The table `records` (the migration in src/util.rs), the SQL statements of
-- src/record_repository.rs with their bound parameters, and SQLite itself, which is a parameter:
-- an engine executes the statements, and may fail at any call.
pub mod Memory
use swandns.Prelude.{
  ℕ, ◌^◌, ◌<◌, ℤ, String, ◌≡◌, Bool, ◌&&◌, List, [], ◌∷◌, ◌==◌, if◌then◌else◌, Result, ok, err,
}
use mathlib.Core.List.{Permᴰ}

-- A row of `records`; `V` is the type of what a cell holds.
pub record Row (V : Type 0) : Type 0 where
  pub name : V
  pub type : V
  pub content : V
  pub ttl : V
  pub created_at : V
  pub updated_at : V

-- INSERT … ON CONFLICT(name, type) DO UPDATE, and DELETE, with their parameters.
pub data Statement (V : Type 0) : Type 0 where
  insert_or_update : Row V → Statement V
  delete_where : (name type : V) → Statement V

-- The two SELECTs.
pub data Query (V : Type 0) : Type 0 where
  select_where : (name type : V) → Query V
  select_all : Query V

module _ {V : Type 0} (same : V → V → Bool) where
  -- name = ?1 AND type = ?2
  unfoldable pub matches : V → V → Row V → Bool
  matches name type r = same r.name name && same r.type type

  unfoldable pub rows_where : V → V → List (Row V) → List (Row V)
  unfolding matches
  rows_where name type [] = []
  rows_where name type (r ∷ rs) =
      let rest = rows_where name type rs in if matches name type r then r ∷ rest else rest

  unfoldable pub rows_not_where : V → V → List (Row V) → List (Row V)
  unfolding matches
  rows_not_where name type [] = []
  rows_not_where name type (r ∷ rs) =
      let rest = rows_not_where name type rs in if matches name type r then rest else r ∷ rest

  -- SET data = excluded.data, ttl = excluded.ttl, updated_at = excluded.updated_at, in the row that
  -- has the key of the new row; without one the new row is added.
  unfoldable pub insert_row : Row V → List (Row V) → List (Row V)
  unfolding matches
  insert_row new [] = new ∷ []
  insert_row new (r ∷ rs) =
      if matches new.name new.type r
      then record r { content = new.content; ttl = new.ttl; updated_at = new.updated_at } ∷ rs
      else r ∷ insert_row new rs

  -- the table after a statement
  unfoldable pub run : Statement V → List (Row V) → List (Row V)
  unfolding insert_row rows_not_where
  run (insert_or_update r) rs = insert_row r rs
  run (delete_where name type) rs = rows_not_where name type rs

  -- the rows of a query, in some order: neither SELECT has an ORDER BY
  unfoldable pub answers : Query V → List (Row V) → List (Row V)
  unfolding rows_where
  answers (select_where name type) rs = rows_where name type rs
  answers select_all rs = rs

pub data SqlError : Type 0 where
  -- the connection is closed, the file cannot be read, the database is busy, …
  engine_error : ℕ → SqlError
  -- `QueryReturnedNoRows`
  no_rows : SqlError
  -- a cell holds no value of the wanted Rust type
  bad_column : SqlError

-- What the program uses of SQLite through rusqlite, and of the `time` crate.
pub record Engine : Type 1 where
  -- what a cell holds
  pub Value : Type 0
  -- SQL's `=`
  pub same : Value → Value → Bool
  -- `OffsetDateTime`, its seconds since the epoch, and `a - b` in nanoseconds
  pub Time : Type 0
  pub unix_timestamp : Time → ℤ
  pub minus : Time → Time → ℤ
  -- `ToSql` for `String`, `u32` and `OffsetDateTime`, and their `FromSql`
  pub of_text : String → Value
  pub of_u32 : ℕ → Value
  pub of_time : Time → Value
  pub get_text : Value → Result SqlError String
  pub get_u32 : Value → Result SqlError ℕ
  pub get_time : Value → Result SqlError Time
  -- a connection with its database; the rows of `records` in it
  pub Conn : Type 0
  pub rows : Conn → List (Row Value)
  pub execute : Statement Value → Conn → Result SqlError (Unit {0}) × Conn
  pub query : Query Value → Conn → Result SqlError (List (Row Value)) × Conn

-- The documented behaviour that the theorems rely on.
pub record IsSqlite (db : Engine) : Type 0 where
  -- two texts are equal to SQL when they are the same text (the columns have the default collation)
  pub same_text : (s t : String) → db.same (db.of_text s) (db.of_text t) ≡ (s == t)
  -- what was stored is read back
  pub get_text : (s : String) → db.get_text (db.of_text s) ≡ ok s
  pub get_u32 : (n : ℕ) → n < 2 ^ 32 → db.get_u32 (db.of_u32 n) ≡ ok n
  pub get_time : (t : db.Time) → db.get_time (db.of_time t) ≡ ok t
  -- a statement that succeeds has its effect, and one that fails has none
  pub executed :
      (s : Statement db.Value) (c c' : db.Conn)
      → db.execute s c ≡ (ok tt, c')
      → db.rows c' ≡ run db.same s (db.rows c)
  pub not_executed :
      (s : Statement db.Value) (c c' : db.Conn) (e : SqlError)
      → db.execute s c ≡ (err e, c')
      → db.rows c' ≡ db.rows c
  -- a query that succeeds returns its rows in some order, and no query changes the table
  pub answered :
      (q : Query db.Value) (c c' : db.Conn) (rs : List (Row db.Value))
      → db.query q c ≡ (ok rs, c')
      → Permᴰ rs (answers db.same q (db.rows c))
  pub unchanged : (q : Query db.Value) (c : db.Conn) → db.rows (db.query q c).1 ≡ db.rows c
