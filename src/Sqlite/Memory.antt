-- ===== src/Sqlite/Memory.antt =====
-- An engine in memory that meets `IsSqlite`: what the hypotheses of the theorems ask for can be
-- had. A connection is a table and a flag, under which every call fails.
use mathlib.Core.List.Permᴰ
use swandns.Prelude.{
  ℕ, ◌-◌, ◌*◌, ◌^◌, ℤ, pos, negsuc, String, ◌≡◌, refl, Bool, false, List, ◌==◌, leb, Result, ok,
  err, if◌then◌else◌, arith,
}
use swandns.Sqlite.{
  Row, Statement, Query, run, answers, SqlError, engine_error, bad_column, Engine, IsSqlite,
}

pub data Cell : Type 0 where
  text : String → Cell
  number : ℕ → Cell
  stamp : ℕ → Cell

abbrev same_cell : Cell → Cell → Bool
same_cell (text s) (text t) = s == t
same_cell _ _ = false

abbrev get_text : Cell → Result SqlError String
get_text (text s) = ok s
get_text _ = err bad_column

abbrev get_u32 : Cell → Result SqlError ℕ
get_u32 (number n) = ok n
get_u32 _ = err bad_column

abbrev get_time : Cell → Result SqlError ℕ
get_time (stamp t) = ok t
get_time _ = err bad_column

pub record Database : Type 0 where
  pub table : List (Row Cell)
  pub is_broken : Bool
  -- how many migrations it has had
  pub version : ℕ

abbrev execute : Statement Cell → Database → Result SqlError (Unit {0}) × Database
execute s c =
    if c.is_broken
    then (err (engine_error 5), c)
    else (ok tt, record c { table = run same_cell s c.table })

abbrev query : Query Cell → Database → Result SqlError (List (Row Cell)) × Database
query q c = if c.is_broken then (err (engine_error 5), c) else (ok (answers same_cell q c.table), c)

-- seconds, as nanoseconds
abbrev minus : ℕ → ℕ → ℤ
minus a b = if leb b a then pos ((a - b) * 10 ^ 9) else negsuc ((b - a) * 10 ^ 9 - 1)

abbrev pub memory : Engine
memory = record {
  Value = Cell;
  same = same_cell;
  Time = ℕ;
  unix_timestamp = pos;
  minus = minus;
  of_text = text;
  of_u32 = number;
  of_time = stamp;
  get_text = get_text;
  get_u32 = get_u32;
  get_time = get_time;
  Conn = Database;
  rows = λ c. c.table;
  execute = execute;
  query = query;
}

executed_lem :
    (s : Statement Cell) (c c' : Database)
    → execute s c ≡ (ok tt, c')
    → c'.table ≡ run same_cell s c.table
executed_lem s c c' h = ground arith

not_executed_lem :
    (s : Statement Cell) (c c' : Database) (e : SqlError)
    → execute s c ≡ (err e, c')
    → c'.table ≡ c.table
not_executed_lem s c c' e h = ground arith

answered_lem :
    (q : Query Cell) (c c' : Database) (rs : List (Row Cell))
    → query q c ≡ (ok rs, c')
    → rs ≡ answers same_cell q c.table
answered_lem q c c' rs h = ground arith

unchanged_lem : (q : Query Cell) (c : Database) → (query q c).1.table ≡ c.table
unchanged_lem q c = ground arith

pub memory-IsSqlite : IsSqlite memory
memory-IsSqlite = record {
  same_text = λ s t. refl;
  get_text = λ s. refl;
  get_u32 = λ n h. refl;
  get_time = λ t. refl;
  executed = executed_lem;
  not_executed = not_executed_lem;
  answered = λ q c c' rs h. rw (answered_lem q c c' rs h) (Permᴰ.refl _);
  unchanged = unchanged_lem;
}
