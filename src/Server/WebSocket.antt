-- ===== src/Server/WebSocket.antt =====
-- handleWebSocket and the map of sessions of cmd/server/main.go. The answers of the upgrader and
-- of smux are arguments; the map, which is a sync.Map, is an association list.
pub mod Ends
pub mod Reconnect
use pisaller.Base.{
  ℕ, ◌≡◌, Bool, true, false, ◌||◌, Option, none, some, List, [], ◌∷◌, ◌++◌, if◌then◌else◌,
}
use pisaller.Base.Int.{ℤ}
use pisaller.Base.Text.{list_eq}
use pisaller.Stream.{Conn}
use pisaller.Server.{Verdict, dropped, welcomed, serve_handshake}
use pisaller.Session.{ClientSession, new_client_session}

-- The upgrader's CheckOrigin, with the header Origin and the host of the request: "" or the host
-- behind "http://" or "https://".
unfoldable pub check_origin : List ℕ → List ℕ → Bool
check_origin origin host =
    list_eq origin []
    || list_eq origin (b'h' ∷ b't' ∷ b't' ∷ b'p' ∷ b':' ∷ b'/' ∷ b'/' ∷ host)
    || list_eq origin (b'h' ∷ b't' ∷ b't' ∷ b'p' ∷ b's' ∷ b':' ∷ b'/' ∷ b'/' ∷ host)

abbrev pub Sessions : Type 0
Sessions = List (List ℕ × ClientSession)

-- Store, Delete and Load of the map.
unfoldable pub store : List ℕ → ClientSession → Sessions → Sessions
store k v [] = (k, v) ∷ []
store k v ((j, w) ∷ m) = let rest = store k v m in if list_eq j k then (k, v) ∷ m else (j, w) ∷ rest

unfoldable pub delete_session : List ℕ → Sessions → Sessions
delete_session k [] = []
delete_session k ((j, w) ∷ m) =
    let rest = delete_session k m in if list_eq j k then rest else (j, w) ∷ rest

pub load_session : List ℕ → Sessions → Option ClientSession
load_session k [] = none
load_session k ((j, w) ∷ m) = if list_eq j k then some w else load_session k m

-- What became of a layer: it was never made, it is live, or it was closed.
pub data Layer : Type 0 where
  unmade : Layer
  live : Layer
  closed : Layer

pub record Layers : Type 0 where
  pub ws : Layer
  pub smux : Layer
  pub stream : Layer

-- The handler has returned, or it waits for the end of a session.
pub data Handled : Type 0 where
  returned : Layers → Handled
  serving : ClientSession → Handled

-- What Upgrade, smux.Server and AcceptStream answer: an error is false or none.
pub record Arrival : Type 0 where
  pub upgraded : Bool
  pub smux_made : Bool
  pub first : Option Conn

abbrev pub register : Verdict × Conn → Sessions → Handled × Sessions
register (dropped, c) m = (returned (record { ws = closed; smux = closed; stream = closed }), m)
register (welcomed uuid, c) m =
    let sess = new_client_session uuid in (serving sess, store uuid sess m)

abbrev pub on_stream : ℕ → ℕ → ℤ → List (List ℕ) → Option Conn → Sessions → Handled × Sessions
on_stream now later timeout bins none m =
    (returned (record { ws = closed; smux = closed; stream = unmade }), m)
on_stream now later timeout bins (some c) m = register (serve_handshake now later timeout bins c) m

-- handleWebSocket up to `<-sess.Done()`.
unfoldable pub handle_web_socket :
    ℕ → ℕ → ℤ → List (List ℕ) → Arrival → Sessions → Handled × Sessions
handle_web_socket now later timeout bins a m =
    if a.upgraded
    then (if a.smux_made
        then on_stream now later timeout bins a.first m
        else (returned (record { ws = closed; smux = unmade; stream = unmade }), m))
    else (returned (record { ws = unmade; smux = unmade; stream = unmade }), m)

abbrev pub layer : Bool → Layer
layer true = closed
layer false = live

-- The rest of it, which runs when `done` is closed; the first stream is closed by its `defer`.
unfoldable pub after_done : ClientSession → Sessions → Handled × Sessions
after_done sess m =
    if sess.done_closed
    then (
      returned
          (record { ws = layer sess.ws_closed; smux = layer sess.smux_closed; stream = closed }),
      delete_session sess.client_id m,
    )
    else (serving sess, m)
