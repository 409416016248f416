-- ===== src/Route/Examples.antt =====
-- A pool of one channel, a client, and the theorem at them.
use pisaller.Base.{
  ℕ, ◌≡◌, refl, List, [], ◌∷◌, ◌++◌, none, some, eof, ok, false, arith, Option, replicate,
}
use pisaller.Base.Int.{pos}
use pisaller.Base.Text.{contains, join_host_port}
use pisaller.Stream.{Conn, M, write, write_by, read_full}
use pisaller.Address.{IpText}
use pisaller.Socks.{decimal}
use pisaller.Pool.{
  Channel, EchPool, open_best_stream, select_channel, choose, candidates, min_rtt, within, near,
  pick, open_at,
}
use pisaller.Pool.Open.{opened}
use pisaller.Socks5.{ProxyConfig, connect, connect_reply, handle_socks5}
use pisaller.Socks5.Connect.{handle_socks5_connect}
use pisaller.Relay.{tcp, handle_smux_stream}
use pisaller.Protocol.{write_handshake_request}
use pisaller.Config.{set_common_defaults}
use pisaller.Config.Loading.{ClientConfig, ServerConfig, load_client_config, load_server_config}
use pisaller.Uuid.{Identity, remove_dashes, init_uuid, get_uuid_bytes}
use pisaller.Uuid.Decode.{hex}
use pisaller.Server.{welcomed, serve_handshake, answer_request, is_allowed}
use pisaller.Client.{do_handshake}
use pisaller.Http.{Request, target_of}
use pisaller.Http.Tunnel.{tunnelled, tunnel_http}
use pisaller.Route.Web.{tunnel_http-handle_smux_stream}
use pisaller.Route.Welcome.{loaded_client_welcomed}
use pisaller.Route.{handle_socks5-handle_smux_stream}

abbrev nothing : List ℕ → Option (List ℕ)
nothing _ = none

abbrev ips : IpText
ips = record { format = λ ip. ip; parse = nothing }

abbrev conn : List ℕ → Conn
conn waiting = record {
  input = waiting;
  ending = eof;
  output = [];
  faults = [];
  read_deadline = none;
  write_deadline = none;
}

-- The user "u" with the password "p", who asks for "x" at the port 80.
abbrev cfg : ProxyConfig
cfg = record { username = 0x75 ∷ []; password = 0x70 ∷ []; host = [] }

abbrev client : Conn
client = conn (5 ∷ 1 ∷ 2 ∷ 1 ∷ 1 ∷ 0x75 ∷ 1 ∷ 0x70 ∷ 5 ∷ 1 ∷ 0 ∷ 3 ∷ 1 ∷ 0x78 ∷ 0 ∷ 80 ∷ 9 ∷ [])

abbrev channel : Channel
channel = record {
  smux_conn = some (record { is_closed = false; open_stream = ok 3 });
  rtt = pos 7;
}

abbrev pool : EchPool
pool = record { channels = channel ∷ []; select_counter = 0; dial_timeout = 5 }

abbrev same : EchPool → EchPool
same p = p

abbrev stream : ℕ → Conn
stream n = conn []

abbrev target : List ℕ
target = 0x78 ∷ 0x3a ∷ 0x38 ∷ 0x30 ∷ []

handle_socks5-handle_smux_stream_example :
    let asked = handle_socks5 ips 7 5 4 cfg client in
    let out = handle_socks5_connect same stream 4 target pool asked.1 in
    (w : Conn) × (asked.0 ≡ ok (connect target))
    × (out.0 ≡ opened 1 w)
    × (handle_smux_stream (record (conn []) { input = w.output ++ (8 ∷ []) })
        ≡ (ok (tcp 4 target), record (conn []) { input = 8 ∷ [] }))
    × (out.2.input ≡ 9 ∷ [])
    × (out.2.output ≡ (([] ++ (0x05 ∷ 0x02 ∷ [])) ++ (0x01 ∷ 0x00 ∷ [])) ++ connect_reply)
unfolding contains join_host_port decimal open_best_stream select_channel choose candidates min_rtt
    within near pick open_at
handle_socks5-handle_smux_stream_example =
    handle_socks5-handle_smux_stream ips 7 5 4 cfg (2 ∷ []) (0x78 ∷ []) (9 ∷ []) (8 ∷ []) 80 client
      (conn []) same stream pool (record pool { select_counter = 1 }) 3 1 (λ e. omega arith)
      (λ e. omega arith) (λ e. omega arith) refl refl refl (omega arith) refl refl refl

abbrev uuid : List ℕ
uuid = replicate 16 7

-- The UUID with a dash.
abbrev text : List ℕ
text = b'0' ∷ b'7' ∷ b'-' ∷ hex (replicate 15 7)

abbrev texts : List (List ℕ)
texts = hex (replicate 16 1) ∷ text ∷ []

abbrev bins : List (List ℕ)
bins = (replicate 16 1 ∷ []) ++ (uuid ∷ [])

-- The client's file leaves the timeout out.
abbrev file : ClientConfig
file = record {
  common = record {
    dial_timeout = pos 0;
    keep_alive = pos 5;
    up_pack = pos 5;
    chunk_ms = pos 5;
    concur = pos 2;
    max_queue_bytes = pos 5;
    read_buf = pos 5;
    utls_fingerprint = [];
    fallback = false;
    dns_server = [];
    ech_domain = [];
    insecure = false;
    token = [];
    ip_override = [];
  };
  uuid = text;
  server_addr = [];
  local_socks5 = [];
  local_http = [];
}

abbrev server_file : ServerConfig
server_file = record {
  common = record file.common { dial_timeout = pos 7 };
  listen_addr = [];
  auth_uuids = texts;
  auth_uuid_bin = [];
  dn = record { dn_pack = pos 0; dn_tail = pos 0; dn_qr = pos 0 };
}

abbrev fresh : Identity
fresh = record { uuid_bytes = none; once_done = false; init_error = none }

loaded_client_welcomed_example :
    (c : ClientConfig) × (s : ServerConfig) × (load_client_config (ok file) none ≡ (none, some c))
    × (load_server_config (ok server_file) none ≡ (none, some s))
    × ((init_uuid c.uuid fresh).0 ≡ none)
    × (get_uuid_bytes (init_uuid c.uuid fresh).1 ≡ some uuid)
    × ((do_handshake 0 1 uuid c.common.dial_timeout (conn (0x11 ∷ 0 ∷ []))).0 ≡ ok tt)
    × ((serve_handshake 0 1 s.common.dial_timeout s.auth_uuid_bin (conn (0x10 ∷ uuid))).0
        ≡ welcomed uuid)
unfolding set_common_defaults write_handshake_request write write_by read_full serve_handshake
    answer_request is_allowed pisaller.Protocol.read_handshake_request
    pisaller.Protocol.write_handshake_response remove_dashes
loaded_client_welcomed_example =
    loaded_client_welcomed 0 1 0 7 fresh file server_file none none uuid (replicate 16 1 ∷ []) []
      (conn (0x11 ∷ 0 ∷ [])) (conn (0x10 ∷ uuid)) refl refl refl refl (omega arith) refl refl
      ((refl, refl, omega arith), ((refl, refl, omega arith), tt)) refl refl refl refl refl refl

-- A request to "h" from a proxy without a user.
abbrev request : Request
request = record { method = b'G' ∷ []; host = b'h' ∷ []; auth = []; text = b'G' ∷ [] }

abbrev read_one : M Request
read_one c = (ok request, c)

abbrev open_cfg : ProxyConfig
open_cfg = record { username = []; password = []; host = [] }

tunnel_http-handle_smux_stream_example :
    let out = tunnel_http read_one (λ s. s) 7 5 open_cfg same stream 4 pool (conn []) in
    (w : Conn) × (out.0 ≡ tunnelled 1 w)
    × (handle_smux_stream (record (conn []) { input = w.output ++ (8 ∷ []) })
        ≡ (ok (tcp 4 (b'h' ∷ b':' ∷ b'8' ∷ b'0' ∷ [])), conn (b'G' ∷ 8 ∷ [])))
    × (out.2.output ≡ [])
unfolding contains target_of open_best_stream select_channel choose candidates min_rtt within near
    pick open_at
tunnel_http-handle_smux_stream_example =
    tunnel_http-handle_smux_stream read_one (λ s. s) 7 5 4 open_cfg (8 ∷ []) (conn [])
      (record (conn []) { read_deadline = some 12; write_deadline = some 12 }) (conn []) request
      same stream pool (record pool { select_counter = 1 }) 3 1 refl (λ e. omega arith) refl refl
      (omega arith) refl refl refl
