-- ===== src/Config/Loading.antt =====
-- LoadClientConfig and LoadServerConfig of internal/config/config.go, behind what os.Open and the
-- JSON decoder answer for the file. The package's variables are the state. The assignment to
-- IPStrategy is left out: the source calls parseStrategy with a byte there, which is no text.
pub mod Ready
use pisaller.Base.{ℕ, ◌≡◌, Option, none, some, List, [], ◌∷◌, Error, Result, ok, err}
use pisaller.Config.{CommonConfig, DnConfig, set_common_defaults, set_dn_defaults}
use pisaller.Uuid.{UuidError}
use pisaller.Server.{Loaded, rejected, loaded, load_auth_uuids}

pub record ClientConfig : Type 0 where
  pub common : CommonConfig
  pub uuid : List ℕ
  pub server_addr : List ℕ
  pub local_socks5 : List ℕ
  pub local_http : List ℕ

pub record ServerConfig : Type 0 where
  pub common : CommonConfig
  pub listen_addr : List ℕ
  pub auth_uuids : List (List ℕ)
  pub auth_uuid_bin : List (List ℕ)
  pub dn : DnConfig

pub data LoadError : Type 0 where
  unread : Error → LoadError
  bad_uuid : UuidError → LoadError

-- Each returns the error, and the variable behind the call.
unfoldable pub load_client_config :
    Result ClientConfig → Option ClientConfig → Option LoadError × Option ClientConfig
load_client_config (err e) conf = (some (unread e), conf)
load_client_config (ok c) conf = (none, some (record c { common = set_common_defaults c.common }))

abbrev pub with_bins :
    ServerConfig → Loaded → Option ServerConfig → Option LoadError × Option ServerConfig
with_bins c (rejected e) conf = (some (bad_uuid e), conf)
with_bins c (loaded bins) conf = (none, some (record c { auth_uuid_bin = bins }))

unfoldable pub load_server_config :
    Result ServerConfig → Option ServerConfig → Option LoadError × Option ServerConfig
load_server_config (err e) conf = (some (unread e), conf)
load_server_config (ok c) conf =
    with_bins (record c { common = set_common_defaults c.common; dn = set_dn_defaults c.dn })
      (load_auth_uuids [] c.auth_uuids) conf
