-- ===== src/Session/Accept.antt =====
-- acceptStreams of cmd/server/main.go, which the client's main.go has as well: the channels that it
-- makes for the streams of a session. Their handlers end with a Close of the channel.
use pisaller.Base.{
  ℕ, ◌≡◌, refl, ◌∙◌, Option, true, false, none, some, List, [], ◌∷◌, ◌==◌, if◌then◌else◌, ==_refl,
}
use pisaller.Session.{
  WsChannel, ClientSession, new_ws_channel, add_channel, close_session, close_channel, get_channel,
  assign,
}
use pisaller.Session.Channels.{find-assign, get_channel-close}

-- What AcceptStream answers: a stream, with the nanoseconds of the clock behind it, or an error.
pub data Accepted : Type 0 where
  accepted : ℕ → ℕ → Accepted
  broken : Accepted

-- The loop, over what is accepted; none is the panic of AddChannel.
unfoldable pub accept_streams : List Accepted → ClientSession → Option ClientSession
accept_streams [] s = some s
accept_streams (accepted stream now ∷ more) s = elim (add_channel (new_ws_channel stream now) s) [
  | none ↦ none
  | some t ↦ accept_streams more t
]
accept_streams (broken ∷ more) s = some (close_session s)

-- What AcceptStream answers, until it fails.
abbrev pub answers : List (ℕ × ℕ) → List Accepted
answers [] = broken ∷ []
answers ((stream, now) ∷ more) = accepted stream now ∷ answers more

pub accept_streams-answers :
    (xs : List (ℕ × ℕ)) (s : ClientSession) (m : List (ℕ × WsChannel))
    → s.channels ≡ some m
    → s.close_once ≡ false
    → (t : ClientSession) × (accept_streams (answers xs) s ≡ some t)
      × (t.client_id ≡ s.client_id)
      × (t.done_closed ≡ true)
      × (t.smux_closed ≡ true)
      × (t.ws_closed ≡ true)
unfolding accept_streams add_channel close_session
accept_streams-answers [] s m e o = (close_session s, refl, simp o, simp o, simp o, simp o)
accept_streams-answers ((stream, now) ∷ xs) s m e o = rw e (accept_streams-answers xs _ _ refl o)

-- A session with a map accepts two streams; when the handler of the first ends, the channel of the
-- second is still found under its id, unless the two ids are the same, which the clock repeats
-- every 2^32 nanoseconds: then it is gone from the session.
pub accept_streams-close_channel :
    (s : ClientSession) (m : List (ℕ × WsChannel)) (a b now later : ℕ)
    → s.channels ≡ some m
    → let one = new_ws_channel a now in
      let two = new_ws_channel b later in
      (t : ClientSession) × (accept_streams (accepted a now ∷ accepted b later ∷ []) s ≡ some t)
      × (get_channel two.id (close_channel one t) ≡ (if one.id == two.id then none else some two))
unfolding accept_streams add_channel get_channel
accept_streams-close_channel s m a b now later e =
    let one = new_ws_channel a now in
    let two = new_ws_channel b later in
    let t : ClientSession = record s {
      channels = some (assign two.id two (assign one.id one m));
    } in
    let closed = get_channel-close one t two.id in
    let found : get_channel two.id t ≡ some two =
      find-assign two.id two.id two (assign one.id one m) ∙ rw (==_refl two.id) refl in
    (t, rw e refl, closed.1 ∙ rw found refl)
