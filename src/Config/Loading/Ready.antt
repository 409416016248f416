-- ===== src/Config/Loading/Ready.antt =====
-- What a server can rely on behind LoadServerConfig.
use pisaller.Base.{
  ◌+◌, ◌≡◌, ◌⊎◌, inl, inr, refl, Option, none, some, [], length, All, Result, ok, err, arith,
}
use pisaller.Config.{set_common_defaults, set_dn_defaults}
use pisaller.Config.Defaults.{
  Defaulted, IsPositive, set_common_defaults_once, set_dn_defaults-IsPositive,
}
use pisaller.Config.Loading.{
  ServerConfig, LoadError, unread, bad_uuid, with_bins, load_server_config,
}
use pisaller.Server.{Loaded, rejected, loaded, load_auth_uuids}
use pisaller.Server.Lengths.{IsUuid, AreLoaded, load_auth_uuids-AreLoaded}

-- A configuration as it is stored for the file's.
pub record IsReady (file conf : ServerConfig) : Type 0 where
  pub common : Defaulted file.common conf.common
  pub dn : IsPositive conf.dn
  pub bins : All IsUuid conf.auth_uuid_bin
  pub each : length conf.auth_uuid_bin ≡ length file.auth_uuids

-- LoadServerConfig either returns an error and leaves the stored configuration as it was, or
-- returns nil and stores one with the defaults set, positive numbers for the way down, and a UUID
-- of 16 bytes for each text.
pub load_server_config-IsReady :
    (file : Result ServerConfig) (conf : Option ServerConfig)
    → ((e : LoadError) × (load_server_config file conf ≡ (some e, conf)))
      ⊎ ((c stored : ServerConfig) × (file ≡ ok c)
          × (load_server_config file conf ≡ (none, some stored))
          × IsReady c stored)
unfolding load_server_config
load_server_config-IsReady (err e) conf = inl (unread e, refl)
load_server_config-IsReady (ok c) conf =
    behind (load_auth_uuids [] c.auth_uuids) (load_auth_uuids-AreLoaded [] c.auth_uuids tt)
  where
    defaulted : ServerConfig
    defaulted = record c { common = set_common_defaults c.common; dn = set_dn_defaults c.dn }

    behind :
        (r : Loaded)
        → AreLoaded (0 + length c.auth_uuids) r
        → ((e : LoadError) × (with_bins defaulted r conf ≡ (some e, conf)))
          ⊎ ((f stored : ServerConfig) × (ok c ≡ ok f)
              × (with_bins defaulted r conf ≡ (none, some stored))
              × IsReady f stored)
    behind (rejected e) h = inl (bad_uuid e, refl)
    behind (loaded bins) (h, n) = inr (
      c,
      record defaulted { auth_uuid_bin = bins },
      refl,
      refl,
      record {
        common = (set_common_defaults_once c.common).0;
        dn = set_dn_defaults-IsPositive c.dn;
        bins = h;
        each = omega (arith, n);
      },
    )
