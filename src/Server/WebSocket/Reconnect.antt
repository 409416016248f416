-- ===== src/Server/WebSocket/Reconnect.antt =====
-- A client that comes back before its first connection has ended.
use pisaller.Base.{ℕ, ◌≡◌, refl, true, false, none, some, List, ap}
use pisaller.Base.Int.{ℤ}
use pisaller.Stream.{Conn}
use pisaller.Server.{serve_handshake, welcomed}
use pisaller.Session.{ClientSession, new_client_session, close_session}
use pisaller.Server.WebSocket.{
  Sessions, store, load_session, serving, Arrival, register, handle_web_socket, after_done,
}
use pisaller.Server.WebSocket.Ends.{load-delete}

abbrev pub made : Conn → Arrival
made c = record { upgraded = true; smux_made = true; first = some c }

handle-welcomed :
    (now later : ℕ) (timeout : ℤ) (bins : List (List ℕ)) (uuid : List ℕ) (c : Conn) (m : Sessions)
    → (serve_handshake now later timeout bins c).0 ≡ welcomed uuid
    → handle_web_socket now later timeout bins (made c) m
      ≡ (serving (new_client_session uuid), store uuid (new_client_session uuid) m)
unfolding handle_web_socket
handle-welcomed now later timeout bins uuid c m h =
    ap (λ v. register (v, (serve_handshake now later timeout bins c).1) m) h

-- A client that is welcomed on one connection, and with the same UUID on a second one while the
-- server still serves the first, is served on the second; when the first session is then closed,
-- its handler deletes the entry under the UUID, so that the map has none while the second session
-- is served.
pub first_end_forgets :
    (now later : ℕ) (timeout : ℤ) (bins : List (List ℕ)) (uuid : List ℕ) (c d : Conn) (m : Sessions)
    → (serve_handshake now later timeout bins c).0 ≡ welcomed uuid
    → (serve_handshake now later timeout bins d).0 ≡ welcomed uuid
    → let one = handle_web_socket now later timeout bins (made c) m in
      let two = handle_web_socket now later timeout bins (made d) one.1 in
      (first second : ClientSession) × (one.0 ≡ serving first)
      × (two.0 ≡ serving second)
      × (load_session uuid (after_done (close_session first) two.1).1 ≡ none)
      × (second.done_closed ≡ false)
unfolding after_done close_session new_client_session
first_end_forgets now later timeout bins uuid c d m h k =
    let sess = new_client_session uuid in
    let e = handle-welcomed now later timeout bins uuid c m h in
    let f = handle-welcomed now later timeout bins uuid d (store uuid sess m) k in
    (sess, sess, ap (λ r. r.0) e, rw e (ap (λ r. r.0) f), load-delete uuid _, refl)
