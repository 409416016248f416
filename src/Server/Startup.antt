-- ===== src/Server/Startup.antt =====
-- The start of main of cmd/server/main.go: the arguments, the configuration, and the loop of
-- InitUUID. What the configuration's file holds is an argument.
use pisaller.Base.{ℕ, ltb, Option, none, some, List, [], ◌∷◌, if◌then◌else◌, Result}
use pisaller.Base.Int.{ℤ}
use pisaller.Config.Loading.{ServerConfig, LoadError, load_server_config}
use pisaller.Uuid.{Identity, init_uuid}

-- The end of the process by log.Fatalf or by a panic, or what listens.
pub data Start : Type 0 where
  usage : Start
  no_config : LoadError → Start
  listening : ServerConfig → Identity → Start
  panicked : Start

-- The loop over AuthUUIDs; the errors of InitUUID are only logged.
unfoldable pub init_all : List (List ℕ) → Identity → Identity
init_all [] st = st
init_all (uuid ∷ uuids) st = init_all uuids (init_uuid uuid st).1

-- Behind LoadServerConfig, with the variable ServerConf; a nil one is the panic on
-- `conf.AuthUUIDs`.
abbrev pub listen : Identity → Option LoadError × Option ServerConfig → Start
listen st (some e, conf) = no_config e
listen st (none, some conf) = listening conf (init_all conf.auth_uuids st)
listen st (none, none) = panicked

-- main, with the number of its arguments.
unfoldable pub server_main : ℕ → Result ServerConfig → Option ServerConfig → Identity → Start
server_main args file conf st =
    if ltb args 2 then usage else listen st (load_server_config file conf)

-- The variable ServerConf as the package config initialises it.
abbrev pub server_conf : Option ServerConfig
server_conf = none

-- The two sizes that the variable upgrader takes from ServerConf; none is the panic on nil.
abbrev pub upgrader_sizes : Option ServerConfig → Option (ℤ × ℤ)
upgrader_sizes none = none
upgrader_sizes (some conf) = some (conf.common.read_buf, conf.common.read_buf)

-- The process: the variables of the package, and then main.
abbrev pub behind_upgrader : Option (ℤ × ℤ) → Start → Start
behind_upgrader none main = panicked
behind_upgrader (some sizes) main = main

unfoldable pub start_server : ℕ → Result ServerConfig → Option ServerConfig → Identity → Start
start_server args file conf st =
    behind_upgrader (upgrader_sizes conf) (server_main args file conf st)
