-- ===== src/Session.antt =====
-- internal/session/session.go: a client's session and its channels. A Go map is an association
-- list, and nil is none. Each call is one section under the session's lock.
pub mod Channels
pub mod Accept
mod Examples
use pisaller.Base.{
  ℕ, ◌+◌, ◌%◌, ◌^◌, ◌≡◌, Bool, true, false, Option, none, some, List, [], ◌∷◌, ◌==◌, if◌then◌else◌,
}

-- A channel: its id and its stream's number. (Its addresses are never set, and its time is not
-- read.)
pub record WsChannel : Type 0 where
  pub id : ℕ
  pub stream : ℕ

pub record ClientSession : Type 0 where
  pub client_id : List ℕ
  pub channels : Option (List (ℕ × WsChannel))
  -- closeOnce, and what its function closed: `done`, the smux session, the WebSocket.
  pub close_once : Bool
  pub done_closed : Bool
  pub smux_closed : Bool
  pub ws_closed : Bool
  -- The streams that were closed, the latest first.
  pub closed_streams : List ℕ

unfoldable pub new_client_session : List ℕ → ClientSession
new_client_session client_id = record {
  client_id = client_id;
  channels = some [];
  close_once = false;
  done_closed = false;
  smux_closed = false;
  ws_closed = false;
  closed_streams = [];
}

-- The native map operations: lookup, assignment, delete.
pub find : ℕ → List (ℕ × WsChannel) → Option WsChannel
find k [] = none
find k ((j, v) ∷ m) = if j == k then some v else find k m

pub assign : ℕ → WsChannel → List (ℕ × WsChannel) → List (ℕ × WsChannel)
assign k v [] = (k, v) ∷ []
assign k v ((j, w) ∷ m) = if j == k then (k, v) ∷ m else (j, w) ∷ assign k v m

pub delete : ℕ → List (ℕ × WsChannel) → List (ℕ × WsChannel)
delete k [] = []
delete k ((j, w) ∷ m) = let rest = delete k m in if j == k then rest else (j, w) ∷ rest

-- AddChannel; none is the panic of an assignment to an entry in a nil map.
pub add_channel : WsChannel → ClientSession → Option ClientSession
add_channel ch s = elim s.channels [
  | none ↦ none
  | some m ↦ some (record s { channels = some (assign ch.id ch m) })
]

-- RemoveChannel; a delete from a nil map does nothing.
pub remove_channel : ℕ → ClientSession → ClientSession
remove_channel id s = elim s.channels [
  | none ↦ s
  | some m ↦ record s { channels = some (delete id m) }
]

-- Close of the session.
unfoldable pub close_session : ClientSession → ClientSession
close_session s = if s.close_once then s else record s {
  channels = none;
  close_once = true;
  done_closed = true;
  smux_closed = true;
  ws_closed = true;
}

-- NewWSChannel: acceptStreams passes `uint32(time.Now().UnixNano())` for the id.
pub new_ws_channel : ℕ → ℕ → WsChannel
new_ws_channel stream now = record { id = now % 2 ^ 32; stream = stream }

-- Close of a channel.
pub close_channel : WsChannel → ClientSession → ClientSession
unfolding remove_channel
close_channel ch s =
    remove_channel ch.id (record s { closed_streams = ch.stream ∷ s.closed_streams })

-- What the session's map has under an id.
abbrev pub channel_in : ℕ → Option (List (ℕ × WsChannel)) → Option WsChannel
channel_in id none = none
channel_in id (some m) = find id m

pub get_channel : ℕ → ClientSession → Option WsChannel
get_channel id s = channel_in id s.channels
