-- ===== src/Server/Examples.antt =====
-- Two configured UUIDs, and the theorems at them.
use pisaller.Base.{ℕ, ◌≡◌, refl, ap, true, false, List, [], ◌∷◌, replicate, none, eof}
use pisaller.Base.Int.{pos}
use pisaller.Stream.{Conn, read_full, write, write_by}
use pisaller.Config.Loading.{ServerConfig}
use pisaller.Uuid.{Identity}
use pisaller.Uuid.Decode.{hex}
use pisaller.Session.{ClientSession, close_session}
use pisaller.Server.WebSocket.{
  Sessions, Arrival, check_origin, handle_web_socket, after_done, load_session, returned, serving,
  closed,
}
use pisaller.Server.WebSocket.Ends.{Ends, handle_web_socket-Ends}
use pisaller.Server.WebSocket.Reconnect.{made, first_end_forgets}
use pisaller.Server.{is_allowed, serve_handshake, answer_request, dropped}
use pisaller.Server.Auth.{serve_handshake_whole}

abbrev first : List ℕ
first = replicate 16 7

abbrev second : List ℕ
second = replicate 16 9

abbrev conn : List ℕ → List ℕ → Conn
conn waiting sent = record {
  input = waiting;
  ending = eof;
  output = sent;
  faults = [];
  read_deadline = none;
  write_deadline = none;
}

stranger : (serve_handshake 1 2 (pos 5) (first ∷ []) (conn (0x10 ∷ second) [])).0 ≡ dropped
unfolding is_allowed
stranger =
    ap (λ r. r.0)
      (serve_handshake_whole 1 2 (pos 5) (first ∷ []) second [] (conn (0x10 ∷ second) []) refl refl
        refl refl)

abbrev none_yet : Sessions
none_yet = []

abbrev arrival : Arrival
arrival = made (conn (0x10 ∷ first) [])

handle_web_socket-Ends_example :
    Ends (first ∷ []) none_yet (handle_web_socket 1 2 (pos 5) (first ∷ []) arrival none_yet)
handle_web_socket-Ends_example = handle_web_socket-Ends 1 2 (pos 5) (first ∷ []) arrival none_yet

-- A stranger's connection is closed whole.
stranger_closed :
    (handle_web_socket 1 2 (pos 5) (first ∷ []) (made (conn (0x10 ∷ second) [])) none_yet).0
    ≡ returned (record { ws = closed; smux = closed; stream = closed })
unfolding handle_web_socket is_allowed serve_handshake answer_request read_full
    pisaller.Protocol.read_handshake_request
stranger_closed = refl

own_origin :
    check_origin (b'h' ∷ b't' ∷ b't' ∷ b'p' ∷ b':' ∷ b'/' ∷ b'/' ∷ b'h' ∷ []) (b'h' ∷ []) ≡ true
unfolding check_origin
own_origin = refl

first_end_forgets_example :
    let one = handle_web_socket 1 2 (pos 5) (first ∷ []) arrival none_yet in
    let two = handle_web_socket 1 2 (pos 5) (first ∷ []) arrival one.1 in
    (s t : ClientSession) × (one.0 ≡ serving s)
    × (two.0 ≡ serving t)
    × (load_session first (after_done (close_session s) two.1).1 ≡ none)
    × (t.done_closed ≡ false)
unfolding is_allowed serve_handshake answer_request read_full write write_by
    pisaller.Protocol.read_handshake_request pisaller.Protocol.write_handshake_response
first_end_forgets_example =
    first_end_forgets 1 2 (pos 5) (first ∷ []) first (conn (0x10 ∷ first) [])
      (conn (0x10 ∷ first) []) none_yet refl refl

abbrev texts : List (List ℕ)
texts = hex first ∷ hex second ∷ []

abbrev file : ServerConfig
file = record {
  common = record {
    dial_timeout = pos 0;
    keep_alive = pos 5;
    up_pack = pos 5;
    chunk_ms = pos 5;
    concur = pos 2;
    max_queue_bytes = pos 5;
    read_buf = pos 5;
    utls_fingerprint = [];
    fallback = false;
    dns_server = [];
    ech_domain = [];
    insecure = false;
    token = [];
    ip_override = [];
  };
  listen_addr = [];
  auth_uuids = texts;
  auth_uuid_bin = [];
  dn = record { dn_pack = pos 0; dn_tail = pos 0; dn_qr = pos 0 };
}

abbrev fresh : Identity
fresh = record { uuid_bytes = none; once_done = false; init_error = none }
