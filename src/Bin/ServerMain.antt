-- ===== src/Bin/ServerMain.antt =====
-- `main` of `swandns` (src/bin/server.rs): the configuration, the database and its migration, and
-- then the two servers as tasks. The crates that load configurations, migrate databases and shut
-- tasks down are parameters, and so are the files, and what the servers do on their sockets.
use swandns.Prelude.{
  ℕ, String, ◌≡◌, ◌⊎◌, inl, inr, Bool, Option, List, [], ◌∷◌, Result, ok, err, Outcome, returned,
  Result-cases,
}
use swandns.Net.{SocketAddr, AddressText}
use swandns.Dns.{Names}
use swandns.Sqlite.{Engine}
use swandns.Util.{Error, Host}
use swandns.Util.Database.{Files, Migrator, open_database, migrate_database}
use swandns.Util.Database.Migrated.{IsUntouched, IsMigrator, migrate_database_lem}
use swandns.Config.{FilePath, FigmentLibrary, ServerConfig, default_server, load_config}
use swandns.Authority.Split.{Library}
use swandns.DnsServer.{Builder, Sockets}
use swandns.Bin.{start_dns_server, start_rpc_server}

pub record Args : Type 0 where
  pub config : Option FilePath

-- a task, when a shutdown cancels it and when none does
abbrev pub Task : Type 0
Task = Bool → Outcome (Result Error (Unit {0}))

-- tokio_graceful_shutdown: `Toplevel` with its subsystems, `catch_signals`, and
-- `handle_shutdown_requests` with its timeout in milliseconds
abbrev pub Toplevel : Type 0
Toplevel = List (String × Task) → ℕ → Outcome (Result Error (Unit {0}))

-- What the program runs on: `W` is the file system.
pub record Machine (db : Engine) (Catalog W : Type 0) : Type 1 where
  pub host : Host
  pub files : Files db.Conn W
  pub migrator : Migrator db.Conn
  -- over the database
  pub sockets : db.Conn → Sockets Catalog
  pub serve : db.Conn → SocketAddr → Outcome (Result Error (Unit {0}))
  pub toplevel : Toplevel
  -- as in Config.antt
  pub confy_path : String → String → Result Error FilePath
  pub figment : FigmentLibrary Error ServerConfig
  pub app_dir : Option FilePath
  pub temp_dir : FilePath

module _ (net : AddressText) (dns : Names) (lib : Library dns) (build : Builder dns lib)
    (db : Engine) {W : Type 0} (machine : Machine db build.Catalog W) where
  unfoldable pub server_config : Option FilePath → Result Error ServerConfig
  server_config config =
      load_config machine.confy_path machine.figment
        (default_server machine.app_dir machine.temp_dir) "server" config

  unfoldable pub tasks : ServerConfig → db.Conn → List (String × Task)
  tasks cfg conn =
      ("DnsServer", start_dns_server net dns lib build machine.host (machine.sockets conn) cfg)
      ∷ ("RpcServer", start_rpc_server net machine.host (machine.serve conn) cfg)
      ∷ []

  unfoldable pub after_migration :
      ServerConfig → Result Error (Unit {0}) × db.Conn → Outcome (Result Error (Unit {0}))
  unfolding tasks
  after_migration cfg (err e, conn) = returned (err e)
  after_migration cfg (ok _, conn) = machine.toplevel (tasks cfg conn) 1000

  unfoldable pub after_open :
      ServerConfig → Result Error db.Conn × W → Outcome (Result Error (Unit {0})) × W
  unfolding after_migration
  after_open cfg (err e, w) = (returned (err e), w)
  after_open cfg (ok conn, w) = (after_migration cfg (migrate_database machine.migrator conn), w)

  unfoldable pub after_config :
      Result Error ServerConfig → W → Outcome (Result Error (Unit {0})) × W
  unfolding after_open
  after_config (err e) w = (returned (err e), w)
  after_config (ok cfg) w = after_open cfg (open_database machine.files cfg.data_dir cfg.db_file w)

  -- `main`, with its arguments
  unfoldable pub server_main : Args → W → Outcome (Result Error (Unit {0})) × W
  unfolding server_config after_config
  server_main args w = after_config (server_config args.config) w

  -- the configuration as it is loaded, and the two servers over a database
  abbrev pub loaded_config : Option FilePath → Result Error ServerConfig
  loaded_config config =
      load_config machine.confy_path machine.figment
        (default_server machine.app_dir machine.temp_dir) "server" config

  abbrev pub servers : ServerConfig → db.Conn → List (String × Task)
  servers cfg conn =
      ("DnsServer", start_dns_server net dns lib build machine.host (machine.sockets conn) cfg)
      ∷ ("RpcServer", start_rpc_server net machine.host (machine.serve conn) cfg)
      ∷ []

  -- what can end the program before it has anything to start: an error of the configuration, of
  -- the database file, or of its migration, which then leaves the database as it was
  abbrev pub FailsWith : Option FilePath → W → Error → Type 0
  FailsWith config w e =
      (loaded_config config ≡ err e)
      ⊎ ((cfg : ServerConfig) × (loaded_config config ≡ ok cfg)
          × ((open_database machine.files cfg.data_dir cfg.db_file w).0 ≡ err e))
      ⊎ ((cfg : ServerConfig) × (opened : db.Conn) × (loaded_config config ≡ ok cfg)
          × ((open_database machine.files cfg.data_dir cfg.db_file w).0 ≡ ok opened)
          × ((migrate_database machine.migrator opened).0 ≡ err e)
          × IsUntouched db machine.migrator opened (migrate_database machine.migrator opened).1)

  -- The tasks run with the configuration and a migrated database, which keeps what was in the file.
  pub record IsStarted (config : Option FilePath) (w : W) (r : Outcome (Result Error (Unit {0})))
      : Type 0 where
    pub cfg : ServerConfig
    pub opened : db.Conn
    pub conn : db.Conn
    pub configured : loaded_config config ≡ ok cfg
    pub found : (open_database machine.files cfg.data_dir cfg.db_file w).0 ≡ ok opened
    pub version : machine.migrator.version conn ≡ 1
    pub rows :
        ((machine.migrator.version opened ≡ 0) × (db.rows conn ≡ []))
        ⊎ ((machine.migrator.version opened ≡ 1) × (db.rows conn ≡ db.rows opened))
    pub started : r ≡ machine.toplevel (servers cfg conn) 1000

  fails_lem :
      (args : Args) (w : W) (e : Error)
      → FailsWith args.config w e
      → (server_main args w).0 ≡ returned (err e)
  unfolding server_main server_config tasks after_config after_open after_migration
  fails_lem args w e (inl failed) = rw failed
  fails_lem args w e (inr (inl (cfg, loaded, failed))) = rw (loaded, failed)
  fails_lem args w e (inr (inr (cfg, opened, loaded, found, failed, _))) =
      rw (loaded, found, failed)

module _ (net : AddressText) (dns : Names) (lib : Library dns) (build : Builder dns lib)
    (db : Engine) {W : Type 0} (machine : Machine db build.Catalog W) where
  -- The program ends with the error, and whatever tasks would do, if there were any: it runs none.
  pub record NotStarted (args : Args) (w : W) : Type 0 where
    pub e : Error
    pub fails : FailsWith net dns lib build db machine args.config w e
    pub without :
        (toplevel : Toplevel)
        → (server_main net dns lib build db (record machine { toplevel = toplevel }) args w).0
          ≡ returned (err e)

  not_started :
      (args : Args) (w : W) (e : Error)
      → FailsWith net dns lib build db machine args.config w e
      → NotStarted args w
  not_started args w e fails = record {
    e = e;
    fails = fails;
    without = λ toplevel.
        fails_lem net dns lib build db (record machine { toplevel = toplevel }) args w e fails;
  }

  module _ (h : IsMigrator db machine.migrator) where
    -- The program ends with the error of the configuration, the database file or the migration, and
    -- then runs no task, and a database that was not migrated is as before; or it runs the two
    -- servers as tasks, with the configuration that was loaded, on a database that has the
    -- migration: its table is empty if the file was new, and has the rows that were in the file
    -- otherwise.
    pub server_main_lem :
        (args : Args) (w : W)
        → NotStarted args w
          ⊎ IsStarted net dns lib build db machine args.config w
              (server_main net dns lib build db machine args w).0
    unfolding server_main server_config tasks after_config after_open after_migration
    server_main_lem args w =
        elim (Result-cases (loaded_config net dns lib build db machine args.config)) [
          | inr (e, failed) ↦ inl (not_started args w e (inl failed))
          | inl (cfg, loaded) ↦
              elim (Result-cases (open_database machine.files cfg.data_dir cfg.db_file w).0) [
                | inr (e, failed) ↦ inl (not_started args w e (inr (inl (cfg, loaded, failed))))
                | inl (opened, found) ↦ elim (migrate_database_lem db machine.migrator h opened) [
                  | inr (e, failed, kept) ↦
                      inl (
                        not_started args w e (inr (inr (cfg, opened, loaded, found, failed, kept))))
                  | inl (done, version, rows) ↦ inr (record {
                    cfg = cfg;
                    opened = opened;
                    conn = (migrate_database machine.migrator opened).1;
                    configured = loaded;
                    found = found;
                    version = version;
                    rows = rows;
                    started = rw (loaded, found, done);
                  })
                ]
              ]
        ]
