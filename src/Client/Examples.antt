-- ===== src/Client/Examples.antt =====
-- A client and a server on one stream, and the theorem at them.
use pisaller.Base.{ℕ, ◌≡◌, refl, none, List, [], ◌∷◌, replicate, eof}
use pisaller.Base.Int.{pos}
use pisaller.Stream.{Conn, write, write_by, read_full}
use pisaller.Protocol.{write_handshake_request, read_smux_open_header}
use pisaller.Relay.{handle_smux_stream, ends}
use pisaller.Server.{serve_handshake, answer_request, is_allowed}
use pisaller.Server.Auth.{verdict}
use pisaller.Client.{do_handshake, keep_alive_ping}
use pisaller.Base.{◌++◌, arith}
use pisaller.Client.Loop.{
  Loop, start, waiting, has, Step, handshake, dials_ws, muxes, shakes_hands, here, next, Run, Reach,
}
use pisaller.Client.Loop.Signal.{signal_reconnects}
use pisaller.Uuid.{Identity, init_uuid}
use pisaller.Uuid.Decode.{hex}
use pisaller.Client.Handshake.{expected, do_handshake-serve_handshake}
use pisaller.Base.{◌↔◌, ltb, true, false, some, ok, err, failure}
use pisaller.Base.Int.{ℤ}
use pisaller.Base.Text.{contains, has_prefix}
use pisaller.Config.{CommonConfig}
use pisaller.Fingerprints.{get_client_hello_id, hello_ios_16_0}
use pisaller.Ech.Lookup.{Network, EchState, init_ech, get_ech_list}
use pisaller.Config.Loading.{ClientConfig}
use pisaller.Client.Startup.{Machine, start_client}
use pisaller.Client.Startup.Outcome.{Runs, IsUp, IsMakeable, start_client_iff}
use pisaller.Listen.{socks5_scheme, http_scheme}
use pisaller.Client.Websocket.{Url, dial_ws, net_dial_address, unsupported_scheme}
use pisaller.Client.Websocket.Hello.{Offers, dial_ws-downgrades}

abbrev uuid : List ℕ
uuid = replicate 16 7

abbrev with_input : List ℕ → Conn
with_input bytes = record {
  input = bytes;
  ending = eof;
  output = [];
  faults = [];
  read_deadline = none;
  write_deadline = none;
}

abbrev server : Conn
server = with_input (0x10 ∷ uuid)

abbrev client : Conn
client = with_input (0x11 ∷ 0 ∷ [])

-- The relay answers the ping of keepAlive with eight bytes.
ping_answered :
    (handle_smux_stream (with_input (keep_alive_ping (with_input [])).1.output)).1.output
    ≡ replicate 8 0
unfolding keep_alive_ping write write_by handle_smux_stream read_smux_open_header read_full
    pisaller.Socks5.write_quiet pisaller.Relay.dispatch pisaller.Relay.pong
ping_answered = refl

shaken : handshake 0 1 uuid (pos 5) (some client) ≡ true
unfolding do_handshake write_handshake_request write write_by read_full
    pisaller.Protocol.read_handshake_response
shaken = refl

-- The first dial, up to the wait on its session.
abbrev served : Loop
served = record start {
  phase = waiting 0;
  current = some 0;
  dials = 1;
  open_ws = 0 ∷ [];
  open_smux = 0 ∷ [];
  keepers = 0 ∷ [];
  accepters = 0 ∷ [];
}

serves : Reach uuid (pos 5) served
serves =
    next (next (next here (dials_ws refl refl)) (muxes 0 refl))
      (shakes_hands 0 0 1 (some client) refl shaken)

signal_reconnects_example :
    (u t : Loop) × Step uuid (pos 5) served u
    × (u.signalled ≡ true)
    × (has 0 u.done ≡ true)
    × (u.open_ws ≡ [])
    × (u.open_smux ≡ [])
    × Run uuid (pos 5) u t
    × (t.phase ≡ waiting 1)
    × (t.current ≡ some 1)
    × (t.open_ws ≡ 1 ∷ [])
    × (t.open_smux ≡ 1 ∷ [])
    × (t.signalled ≡ true)
signal_reconnects_example =
    signal_reconnects uuid (pos 5) 0 0 1 (some client) serves refl refl refl shaken

do_handshake-serve_handshake_example :
    ((do_handshake 0 1 uuid (pos 5) client).0 ≡ expected (is_allowed uuid (uuid ∷ [])))
    × ((serve_handshake 0 1 (pos 5) (uuid ∷ []) server).0
        ≡ verdict (is_allowed uuid (uuid ∷ [])) uuid)
unfolding write_handshake_request write write_by read_full serve_handshake answer_request is_allowed
    pisaller.Protocol.read_handshake_request pisaller.Protocol.write_handshake_response
do_handshake-serve_handshake_example =
    do_handshake-serve_handshake 0 1 (pos 5) (pos 5) (uuid ∷ []) uuid client server refl refl refl
      refl refl refl refl refl refl

abbrev conf : CommonConfig
conf = record {
  dial_timeout = pos 5;
  keep_alive = pos 5;
  up_pack = pos 5;
  chunk_ms = pos 5;
  concur = pos 2;
  max_queue_bytes = pos 5;
  read_buf = pos 5;
  utls_fingerprint = b'i' ∷ b'o' ∷ b's' ∷ b'_' ∷ b'1' ∷ b'6' ∷ [];
  fallback = false;
  dns_server = [];
  ech_domain = [];
  insecure = false;
  token = [];
  ip_override = b'o' ∷ [];
}

abbrev unloaded : EchState
unloaded = record { ech_list = []; ech_fallback = false; ech_domain = []; dns_server = [] }

abbrev loaded_ech : EchState
loaded_ech = record unloaded { ech_list = 9 ∷ [] }

-- "WSS"
abbrev url : Url
url = record { scheme = b'W' ∷ b'S' ∷ b'S' ∷ []; hostname = b'h' ∷ []; query = [] }

abbrev one : ℤ → List ℕ
one n = b'1' ∷ []

abbrev silent : Network
silent = record { exchange = λ server query. err (failure 5); fetch = λ u query. err (failure 5) }

named : get_client_hello_id conf.utls_fingerprint ≡ some hello_ios_16_0
unfolding get_client_hello_id
named = refl

refused_scheme :
    dial_ws one conf loaded_ech (ok (record url { scheme = b'f' ∷ [] })) [] (pos 1)
    ≡ err unsupported_scheme
unfolding dial_ws
refused_scheme = refl

overridden : net_dial_address conf [] (b'h' ∷ b':' ∷ b'1' ∷ []) ≡ b'o' ∷ b':' ∷ b'1' ∷ []
unfolding net_dial_address pisaller.Base.Text.split_host_port pisaller.Base.Text.split_last_colon
    pisaller.Base.Text.join_host_port contains
overridden = refl

dial_ws-downgrades_example : Offers conf url [] (
    dial_ws one conf
      (init_ech silent (b'd' ∷ []) (b'a' ∷ []) conf.fallback unloaded).1
      (ok url)
      []
      (pos 0))
unfolding init_ech pisaller.Ech.Lookup.refresh_ech pisaller.Ech.Lookup.query_ech has_prefix
    pisaller.Ech.Lookup.query_dns_udp contains
dial_ws-downgrades_example =
    dial_ws-downgrades silent one conf unloaded url (b'd' ∷ []) (b'a' ∷ []) [] (pos 0) (failure 5)
      refl refl refl refl

abbrev fresh_identity : Identity
fresh_identity = record { uuid_bytes = none; once_done = false; init_error = none }

-- The UUID with a dash.
abbrev text : List ℕ
text = b'0' ∷ b'7' ∷ b'-' ∷ hex (replicate 15 7)

abbrev texts : List (List ℕ)
texts = hex (replicate 16 1) ∷ text ∷ []

abbrev bins : List (List ℕ)
bins = (replicate 16 1 ∷ []) ++ (uuid ∷ [])

abbrev client_file : ClientConfig
client_file = record {
  common = conf;
  uuid = text;
  server_addr = [];
  local_socks5 = [];
  local_http = [];
}

-- No server answers the query of InitECH, and a slice has at most 10 elements.
abbrev machine : Machine
machine = record {
  net = silent;
  listen_socks5 = λ host. ok tt;
  listen_http = λ host. ok tt;
  longest = 10;
}

start_client_iff_example :
    Runs (start_client machine 2 (ok client_file) none fresh_identity unloaded) ↔ (
      (ltb 2 2 ≡ false)
      × ((c : ClientConfig) × (ok client_file ≡ ok c)
          × ((init_uuid c.uuid fresh_identity).0 ≡ none)
          × IsUp socks5_scheme (λ host. ok tt) c.local_socks5
          × IsUp http_scheme (λ host. ok tt) c.local_http
          × IsMakeable 10 c.common.concur))
start_client_iff_example = start_client_iff machine 2 (ok client_file) none fresh_identity unloaded
