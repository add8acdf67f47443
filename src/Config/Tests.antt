-- ===== src/Config/Tests.antt =====
-- A configuration of which the file gives one port and the environment the other.
use swandns.Prelude.{ℕ, String, ◌≡◌, refl, inr, none, some, Result, ok, ◌==◌, if◌then◌else◌}
use swandns.Config.{FilePath, ServerConfig, default_server, load_config}
use swandns.Config.Layers.{path_or, IsFrom, load_config_lem}
use swandns.Config.Fixtures.{Ports, figment, HoldsPort, figment-IsFigment}

abbrev file : Ports
file key = if key == "dns_port" then some 53 else none

abbrev env : Ports
env key = if key == "api_port" then some 9090 else none

abbrev confy : String → String → Result String FilePath
confy app name = ok "/etc/server.yml"

abbrev defaults : ServerConfig
defaults = default_server none "/tmp"

abbrev loaded : ServerConfig
loaded = record defaults { dns_port = 53; api_port = 9090 }

ports : load_config confy (figment file env) defaults "server" none ≡ ok loaded
unfolding load_config default_server
ports = refl

load_config_lem_example :
    (path : FilePath) × (path_or none (confy "swandns" "server") ≡ ok path)
    × (n : ℕ) × HoldsPort "api_port" n loaded
    × IsFrom confy (figment file env) (figment-IsFigment file env) defaults path "api_port" n
load_config_lem_example =
    load_config_lem confy (figment file env) (figment-IsFigment file env) defaults loaded "server"
      none "api_port" (inr refl) ports
