-- ===== src/Session/Examples.antt =====
-- A session with two channels, and the theorems at it.
use pisaller.Base.{◌≡◌, refl, [], ◌∷◌, none, some, false}
use pisaller.Session.{
  ClientSession, WsChannel, new_ws_channel, add_channel, remove_channel, close_session,
  close_channel, get_channel, find, delete,
}
use pisaller.Base.{ℕ, List}
use pisaller.Session.Accept.{accepted, broken, accept_streams}

abbrev one : WsChannel
one = record { id = 1; stream = 10 }

abbrev two : WsChannel
two = record { id = 2; stream = 20 }

abbrev session : ClientSession
session = record {
  client_id = 7 ∷ [];
  channels = some ((1, one) ∷ (2, two) ∷ []);
  close_once = false;
  done_closed = false;
  smux_closed = false;
  ws_closed = false;
  closed_streams = [];
}

-- Two channels that are made 2^32 nanoseconds apart have the same id: closing the first takes the
-- second out of the session.
same_id :
    get_channel 5 (
      close_channel
        (new_ws_channel 10 5)
        (record session { channels = some ((5, new_ws_channel 20 4294967301) ∷ []) }))
    ≡ none
unfolding get_channel close_channel new_ws_channel remove_channel find delete
same_id = refl

-- A stream that comes when the session is closed crashes the loop.
late_stream : accept_streams (accepted 10 5 ∷ broken ∷ []) (close_session session) ≡ none
unfolding accept_streams close_session add_channel new_ws_channel
late_stream = refl

abbrev map : List (ℕ × WsChannel)
map = (1, one) ∷ (2, two) ∷ []
