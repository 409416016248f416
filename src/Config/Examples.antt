-- ===== src/Config/Examples.antt =====
-- A sparse configuration file, and the theorems at it.
use pisaller.Base.{ℕ, ◌≡◌, ◌⊎◌, refl, false, none, some, List, [], ◌∷◌, replicate, ok}
use pisaller.Base.Int.{pos, negsuc}
use pisaller.Config.{CommonConfig, DnConfig, set_common_defaults, family_text, only}
use pisaller.Config.Loading.{ServerConfig, LoadError, load_server_config}
use pisaller.Config.Loading.Ready.{IsReady, load_server_config-IsReady}

-- Only a negative keep alive and a short chunk time are given.
abbrev sparse : CommonConfig
sparse = record {
  dial_timeout = pos 0;
  keep_alive = negsuc 0;
  up_pack = pos 0;
  chunk_ms = pos 5;
  concur = pos 0;
  max_queue_bytes = pos 0;
  read_buf = pos 0;
  utls_fingerprint = [];
  fallback = false;
  dns_server = [];
  ech_domain = b'a' ∷ [];
  insecure = false;
  token = [];
  ip_override = [];
}

abbrev no_dn : DnConfig
no_dn = record { dn_pack = negsuc 3; dn_tail = pos 0; dn_qr = pos 9 }

-- A negative keep alive stays, with which time.NewTicker panics.
negative_stays : (set_common_defaults sparse).keep_alive ≡ negsuc 0
unfolding set_common_defaults
negative_stays = refl

abbrev name : List ℕ
name = family_text b'6' only

abbrev server_file : ServerConfig
server_file = record {
  common = sparse;
  listen_addr = [];
  auth_uuids = replicate 32 b'a' ∷ [];
  auth_uuid_bin = [];
  dn = no_dn;
}

load_server_config-IsReady_example :
    ((e : LoadError) × (load_server_config (ok server_file) none ≡ (some e, none)))
    ⊎ ((c stored : ServerConfig) × (ok server_file ≡ ok c)
        × (load_server_config (ok server_file) none ≡ (none, some stored))
        × IsReady c stored)
load_server_config-IsReady_example = load_server_config-IsReady (ok server_file) none
