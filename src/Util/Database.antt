-- ===== src/Util/Database.antt =====
-- `open_database` and `migrate_database` (src/util.rs). The file system, tokio_rusqlite's `call`
-- and the crate rusqlite_migration are parameters; the SQL of a migration is translated to a
-- `Schema`.
pub mod Migrated
pub mod Fixtures
use swandns.Prelude.{
  ℕ, zero, suc, ◌≤◌, String, ◌≡◌, ◌⊎◌, Option, some, List, [], ◌∷◌, length, Result, ok, err,
  Outcome, returned, panicked,
}
use swandns.Sqlite.{Row, SqlError, Engine}
use swandns.Config.{FilePath}
use swandns.Util.{Error}

-- CREATE TABLE records(…), with the columns of `Row`, and DROP TABLE records
pub data Schema : Type 0 where
  create_records drop_records : Schema

-- `M::up(…).down(…)`
pub record Migration : Type 0 where
  pub up : Schema
  pub down : Option Schema

-- the rows of `records` after a statement
abbrev pub rows_after : {V : Type 0} → Schema → List (Row V) → List (Row V)
rows_after create_records rs = []
rows_after drop_records rs = []

abbrev pub rows_after_all : {V : Type 0} → List Migration → List (Row V) → List (Row V)
rows_after_all [] rs = rs
rows_after_all (m ∷ ms) rs = rows_after_all ms (rows_after m.up rs)

abbrev pub drop {ℓ} : {A : Type ℓ} → ℕ → List A → List A
drop zero xs = xs
drop (suc n) [] = []
drop (suc n) (_ ∷ xs) = drop n xs

-- What the functions use of the file system `W`.
pub record Files (Conn W : Type 0) : Type 0 where
  pub join : FilePath → FilePath → FilePath
  pub create_dir_all : FilePath → W → Result Error (Unit {0}) × W
  pub open_connection : FilePath → W → Result Error Conn × W

pub record Migrator (Conn : Type 0) : Type 0 where
  pub pragma_update : String → String → Conn → Result SqlError (Unit {0}) × Conn
  -- `Migrations::to_latest`; how many migrations the database file has had
  pub to_latest : List Migration → Conn → Result SqlError (Unit {0}) × Conn
  pub version : Conn → ℕ
  -- `Connection::call` of tokio_rusqlite, and its error if the function panics
  pub call :
      (Conn → Outcome (Result Error (Unit {0})) × Conn) → Conn → Result Error (Unit {0}) × Conn
  pub closed : Error

module _ {Conn W : Type 0} (files : Files Conn W) where
  after_create_dir : FilePath → Result Error (Unit {0}) × W → Result Error Conn × W
  after_create_dir db_path (err e, w) = (err e, w)
  after_create_dir db_path (ok _, w) = files.open_connection db_path w

  unfoldable pub open_database : FilePath → FilePath → W → Result Error Conn × W
  unfolding after_create_dir
  open_database data_dir db_filename w =
      let db_path = files.join data_dir db_filename in
      after_create_dir db_path (files.create_dir_all data_dir w)

abbrev pub migrations : List Migration
migrations = record { up = create_records; down = some drop_records } ∷ []

module _ {Conn : Type 0} (migrator : Migrator Conn) where
  -- the function that is called, from its end
  unfoldable pub after_to_latest :
      Result SqlError (Unit {0}) × Conn → Outcome (Result Error (Unit {0})) × Conn
  after_to_latest (err _, c) = (panicked, c)
  after_to_latest (ok _, c) = (returned (ok tt), c)

  unfoldable pub after_pragma :
      Result SqlError (Unit {0}) × Conn → Outcome (Result Error (Unit {0})) × Conn
  unfolding after_to_latest
  after_pragma (err _, c) = (panicked, c)
  after_pragma (ok _, c) = after_to_latest (migrator.to_latest migrations c)

  unfoldable pub migrate_database : Conn → Result Error (Unit {0}) × Conn
  unfolding after_pragma
  migrate_database =
      migrator.call (λ c. after_pragma (migrator.pragma_update "journal_mode" "WAL" c))
