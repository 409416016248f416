-- ===== src/Route/Welcome.antt =====
-- From the two configuration files to a session: LoadClientConfig and InitUUID of the client,
-- LoadServerConfig of the server, and their handshake.
use pisaller.Base.{
  ℕ, zero, suc, ◌≡◌, refl, true, false, Option, none, some, List, [], ◌∷◌, ◌++◌, length, All, inl,
  inr, ok,
}
use pisaller.Base.Int.{ℤ, pos, is_pos}
use pisaller.Base.Bytes.{IsByte}
use pisaller.Stream.{Conn}
use pisaller.Protocol.{write_handshake_request}
use pisaller.Config.{CommonConfig, set_common_defaults, set_dn_defaults}
use pisaller.Config.Defaults.{DefaultedNumber, set_common_defaults_once}
use pisaller.Config.Loading.{ClientConfig, ServerConfig, load_client_config, load_server_config}
use pisaller.Uuid.{Identity, remove_dashes, init_uuid, get_uuid_bytes}
use pisaller.Uuid.Decode.{hex}
use pisaller.Server.{welcomed, serve_handshake}
use pisaller.Server.Auth.{Spells}
use pisaller.Client.{do_handshake}
use pisaller.Client.Handshake.{configured_client_welcomed}

-- A timeout that the file leaves out or gives as a number that is not negative is positive.
timeout_pos : (n : ℕ) (x new : ℤ) → x ≡ pos n → DefaultedNumber x new → is_pos new ≡ true
timeout_pos n x new e (inl (zeroed, h)) = h
timeout_pos zero x new e (inr (nonzero, same)) = absurd (nonzero e)
timeout_pos (suc n) x new e (inr (nonzero, same)) = rw (same, e) refl

default_timeout_pos :
    (n : ℕ) (c : CommonConfig)
    → c.dial_timeout ≡ pos n
    → is_pos (set_common_defaults c).dial_timeout ≡ true
default_timeout_pos n c e =
    timeout_pos n c.dial_timeout (set_common_defaults c).dial_timeout e
      (set_common_defaults_once c).0.dial_timeout

-- A client gets in by its file. Neither file has a negative dial timeout; the UUID of the client's
-- file is a text that without its dashes is the lower-case hexadecimal form of 16 bytes, and the
-- texts of the server's file are such forms of UUIDs among which these bytes are. Then both files
-- are loaded, the first InitUUID stores the bytes, and between connections that take what is
-- written and of which each reads what the other wrote, under the loaded timeouts, doHandshake
-- succeeds and the server runs a session under the bytes.
pub loaded_client_welcomed :
    (now later n m : ℕ) (st : Identity) (file : ClientConfig) (server_file : ServerConfig)
    (old : Option ClientConfig) (server_old : Option ServerConfig) (uuid : List ℕ)
    (before after : List (List ℕ)) (c s : Conn)
    → file.common.dial_timeout ≡ pos n
    → server_file.common.dial_timeout ≡ pos m
    → st.once_done ≡ false
    → st.init_error ≡ none
    → All IsByte uuid
    → length uuid ≡ 16
    → remove_dashes file.uuid ≡ hex uuid
    → Spells server_file.auth_uuids (before ++ (uuid ∷ after))
    → c.faults ≡ []
    → c.output ≡ []
    → s.faults ≡ []
    → s.output ≡ []
    → s.input
      ≡ (write_handshake_request now uuid (set_common_defaults file.common).dial_timeout c).1.output
    → c.input
      ≡ (serve_handshake now later
          (set_common_defaults server_file.common).dial_timeout
          (before ++ (uuid ∷ after))
          s).1.output
    → (conf : ClientConfig) × (server_conf : ServerConfig) × (load_client_config (ok file) old
        ≡ (none, some conf))
      × (load_server_config (ok server_file) server_old ≡ (none, some server_conf))
      × ((init_uuid conf.uuid st).0 ≡ none)
      × (get_uuid_bytes (init_uuid conf.uuid st).1 ≡ some uuid)
      × ((do_handshake now later uuid conf.common.dial_timeout c).0 ≡ ok tt)
      × ((serve_handshake now later server_conf.common.dial_timeout server_conf.auth_uuid_bin s).0
          ≡ welcomed uuid)
unfolding load_client_config load_server_config
loaded_client_welcomed now later n m st file server_file old server_old uuid before after c s t u o
      i hb l e sp fc oc fs os is ic =
    let welcome =
      configured_client_welcomed now later (set_common_defaults file.common).dial_timeout
        (set_common_defaults server_file.common).dial_timeout st file.uuid uuid
        server_file.auth_uuids before after c s o i hb l e sp (default_timeout_pos n file.common t)
        (default_timeout_pos m server_file.common u) fc oc fs os is ic in
    (
      record file { common = set_common_defaults file.common },
      record server_file {
        common = set_common_defaults server_file.common;
        dn = set_dn_defaults server_file.dn;
        auth_uuid_bin = before ++ (uuid ∷ after);
      },
      refl,
      rw welcome.2 refl,
      welcome.0,
      welcome.1,
      welcome.3,
      welcome.4,
    )
