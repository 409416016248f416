-- ===== src/Session/Channels.antt =====
-- The channels of a session.
use pisaller.Base.{
  ℕ, ◌≡◌, refl, true, false, none, some, List, [], ◌∷◌, ◌==◌, if◌then◌else◌, arith, Option-cases,
  inl, inr,
}
use pisaller.Session.{
  WsChannel, ClientSession, find, assign, delete, add_channel, close_session, close_channel,
  get_channel,
}

pub find-assign :
    (k j : ℕ) (v : WsChannel) (m : List (ℕ × WsChannel))
    → find j (assign k v m) ≡ (if k == j then some v else find j m)
unfolding find assign
find-assign k j v [] = refl
find-assign k j v ((i, w) ∷ m) = ground (arith, find-assign k j v m)

find-delete :
    (k j : ℕ) (m : List (ℕ × WsChannel)) → find j (delete k m) ≡ (if k == j then none else find j m)
unfolding find delete
find-delete k j [] = ground arith
find-delete k j ((i, w) ∷ m) = ground (arith, find-delete k j m)

-- Adding a channel to an open session succeeds, and changes what is found under its own id alone.
pub get_channel-add :
    (ch : WsChannel) (s : ClientSession) (m : List (ℕ × WsChannel)) (j : ℕ)
    → s.channels ≡ some m
    → (t : ClientSession) × (add_channel ch s ≡ some t)
      × (get_channel j t ≡ (if ch.id == j then some ch else get_channel j s))
unfolding add_channel get_channel
get_channel-add ch s m j e = (
  record s { channels = some (assign ch.id ch m) },
  rw (e, add_channel),
  rw e (find-assign ch.id j ch m),
)

-- Closing a channel closes its stream, and takes away what stands under its id, whichever channel
-- that is; every other id keeps its channel.
pub get_channel-close :
    (ch : WsChannel) (s : ClientSession) (j : ℕ)
    → ((close_channel ch s).closed_streams ≡ ch.stream ∷ s.closed_streams)
      × (get_channel j (close_channel ch s) ≡ (if ch.id == j then none else get_channel j s))
unfolding close_channel get_channel
get_channel-close ch s j = elim (Option-cases s.channels) [
  | inl e ↦ ground arith
  | inr (m, e) ↦ ground (arith, find-delete ch.id j m)
]

-- After Close nothing is found, a second Close changes nothing, and AddChannel panics: it assigns
-- to a nil map.
pub close_session_final :
    (ch : WsChannel) (s : ClientSession) (j : ℕ)
    → s.close_once ≡ false
    → (get_channel j (close_session s) ≡ none)
      × (close_session (close_session s) ≡ close_session s)
      × (add_channel ch (close_session s) ≡ none)
      × ((close_session s).done_closed ≡ true)
unfolding close_session get_channel add_channel
close_session_final ch s j h = simp h (refl, refl, refl, refl)
