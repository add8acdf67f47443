-- ===== src/Util/Database/Fixtures.antt =====
-- Migrations of the engine of Sqlite/Memory.antt, for the tests: they fail under the engine's flag,
-- and on a file that has had more of them.
use swandns.Prelude.{
  leb, ◌≡◌, refl, inl, List, Result, ok, err, not, ◌&&◌, if◌then◌else◌, length, arith,
}
use swandns.Sqlite.{SqlError, engine_error}
use swandns.Sqlite.Memory.{Database, memory}
use swandns.Util.{io_error}
use swandns.Util.Database.{Migration, Migrator, rows_after_all, drop}
use swandns.Util.Database.Migrated.{IsMigrator, AreMade, IsUntouched, after_call}

abbrev to_latest : List Migration → Database → Result SqlError (Unit {0}) × Database
to_latest ms c =
    if not c.is_broken && leb c.version (length ms)
    then (
      ok tt,
      record c { table = rows_after_all (drop c.version ms) c.table; version = length ms },
    )
    else (err (engine_error 8), c)

abbrev pub migrator : Migrator Database
migrator = record {
  pragma_update = λ key value c. (ok tt, c);
  to_latest = to_latest;
  version = λ c. c.version;
  call = λ f c. after_call (io_error 9) (f c);
  closed = io_error 9;
}

migrated_lem :
    (ms : List Migration) (c c' : Database)
    → to_latest ms c ≡ (ok tt, c')
    → AreMade memory migrator ms c c'
migrated_lem ms c c' e = ground (arith, e)

not_migrated_lem :
    (ms : List Migration) (c c' : Database) (x : SqlError)
    → to_latest ms c ≡ (err x, c')
    → IsUntouched memory migrator c c'
not_migrated_lem ms c c' x e = ground (arith, e)

pub migrator-IsMigrator : IsMigrator memory migrator
migrator-IsMigrator = record {
  pragma_set = λ key value c. (refl, refl);
  migrated = migrated_lem;
  not_migrated = not_migrated_lem;
  called = λ f c. inl refl;
}
