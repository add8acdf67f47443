-- ===== src/Bin/MainTests.antt =====
-- The two programs started on small machines.
use Prim.Native.String.{◌++◌}
use swandns.Prelude.{ltb, ◌≡◌, refl, ◌⊎◌, none, [], ok, err, returned, if◌then◌else◌}
use swandns.Sqlite.Memory.{Database, memory}
use swandns.Repository.Fixtures.{one}
use swandns.Util.{io_error}
use swandns.Util.Database.{Files}
use swandns.Util.Database.Fixtures.{migrator, migrator-IsMigrator}
use swandns.Dns.Fixtures.{net, names}
use swandns.Config.{FilePath, ServerConfig, default_server}
use swandns.Config.Fixtures.{settled}
use swandns.Authority.Split.Fixtures.{library}
use swandns.DnsServer.Fixtures.{Zones, builder}
use swandns.Client.{records_not_updated}
use swandns.Client.Updates.{failures, world_after_all}
use swandns.Client.Fixtures.{World, host, retry, network, cfg, two_failures, all_return}
use swandns.Bin.{LoopState, running}
use swandns.Bin.Fixtures.{sockets, serve}
use swandns.Bin.Fixtures
use swandns.Bin.ServerMain.{Machine, NotStarted, IsStarted, server_main, server_main_lem}
use swandns.Bin.ClientMain.{Surroundings, client_main, client_main_lem}

-- The file system holds one database file.
abbrev files : Files Database Database
files = record {
  join = λ dir file. dir ++ "/" ++ file;
  create_dir_all = λ dir w. (ok tt, w);
  open_connection = λ path w. (ok w, w);
}

abbrev machine : Machine memory Zones Database
machine = record {
  host = Fixtures.host;
  files = files;
  migrator = migrator;
  sockets = λ conn. sockets;
  serve = λ conn. serve;
  toplevel = λ tasks timeout. returned (ok tt);
  confy_path = λ name file. ok file;
  figment = settled (default_server none "/tmp");
  app_dir = none;
  temp_dir = "/tmp";
}

server_main_lem_example :
    NotStarted net names library builder memory machine (record { config = none }) one
    ⊎ IsStarted net names library builder memory machine none one
        (server_main net names library builder memory machine (record { config = none }) one).0
server_main_lem_example =
    server_main_lem net names library builder memory machine migrator-IsMigrator
      (record { config = none }) one

-- A database of a later version stops the program before it starts anything.
abbrev newer : Database
newer = record one { version = 2 }

newer_database :
    server_main net names library builder memory machine (record { config = none }) newer
    ≡ (returned (err (io_error 9)), newer)
unfolding server_main swandns.Config.load_config swandns.Config.default_server
    swandns.Util.Database.open_database swandns.Util.Database.migrate_database
newer_database = refl

abbrev around : Surroundings World
around = record {
  rounds = λ schedule. [];
  toplevel = λ name loop timeout w. (returned (ok tt), (loop w).1);
  confy_path = λ name file. ok file;
  figment = settled cfg;
}

-- One of two records is not updated.
client_main_lem_example :
    client_main net retry host network around
      (record { config = none; schedule = none })
      two_failures
    ≡ (
      returned (
          if ltb 0 (failures net retry network host cfg cfg.records two_failures)
          then err
              (records_not_updated (failures net retry network host cfg cfg.records two_failures))
          else ok tt),
      world_after_all net retry network host cfg cfg.records two_failures,
    )
unfolding swandns.Bin.ClientMain.client_config swandns.Config.load_config
client_main_lem_example =
    client_main_lem net retry host network around none cfg two_failures refl all_return
