-- ===== src/Config.antt =====
-- src/config.rs: the configurations, their defaults, and where they are loaded from. The platform's
-- directories and the crate figment are parameters.
pub mod Layers
pub mod Fixtures
mod Tests
use swandns.Prelude.{ℕ, String, Option, none, some, List, [], Result, ok, ◌>>=◌}

abbrev pub FilePath : Type 0
FilePath = String

pub record RecordConfig : Type 0 where
  pub key : String
  pub value : String

pub record ZoneConfig : Type 0 where
  pub name : String
  pub records : List RecordConfig

pub record ServerConfig : Type 0 where
  pub data_dir : FilePath
  pub db_file : FilePath
  pub bind : Option String
  pub dns_port : ℕ
  pub api_port : ℕ
  pub nameservers : List String
  pub zones : List ZoneConfig

pub record ClientRecordConfig : Type 0 where
  pub server_url : Option String
  pub name : String
  pub bind : Option String
  pub protocol : Option String

pub record ClientConfig : Type 0 where
  pub default_server_url : Option String
  pub default_bind : Option String
  pub default_protocol : Option String
  pub records : List ClientRecordConfig

abbrev pub or_path : Option FilePath → FilePath → FilePath
or_path none default = default
or_path (some path) default = path

-- `ServerConfig::default`, with the data directory of `AppDirs` and the one for temporary files
unfoldable pub default_server : Option FilePath → FilePath → ServerConfig
default_server app_dir temp_dir = record {
  data_dir = or_path app_dir temp_dir;
  db_file = "swandns.db";
  bind = none;
  dns_port = 1053;
  api_port = 8080;
  nameservers = [];
  zones = [];
}

-- `ClientConfig::default`
unfoldable pub default_client : ClientConfig
default_client = record {
  default_server_url = none;
  default_bind = none;
  default_protocol = none;
  records = [];
}

-- The crate figment: providers of values, and what is put together from them, for configurations
-- `T`.
pub record FigmentLibrary (E T : Type 0) : Type 1 where
  pub Provider : Type 0
  pub Figment : Type 0
  -- `Serialized::defaults`, `Yaml::file`, `Env::prefixed`
  pub defaults : T → Provider
  pub yaml_file : FilePath → Provider
  pub env_prefixed : String → Provider
  pub from_provider : Provider → Figment
  pub merge : Provider → Figment → Figment
  pub extract : Figment → Result E T

module _ {E T : Type 0} (confy_path : String → String → Result E FilePath)
    (figment : FigmentLibrary E T) where
  unfoldable pub config_path : String → Option FilePath → Result E FilePath
  config_path conf_name none = confy_path "swandns" conf_name
  config_path conf_name (some path) = ok path

  -- with the file at a path
  unfoldable pub merged : T → FilePath → figment.Figment
  merged defaults path =
      figment.merge (figment.env_prefixed "SWANDNS_")
        (figment.merge (figment.yaml_file path) (figment.from_provider (figment.defaults defaults)))

  unfoldable pub load_config : T → String → Option FilePath → Result E T
  unfolding config_path merged
  load_config defaults conf_name path = do
    path ← config_path conf_name path
    figment.extract (merged defaults path)
