-- ===== src/Server/WebSocket/Ends.antt =====
-- How the handler of a connection ends.
use pisaller.Base.{
  ℕ, ◌≡◌, ◌⊎◌, inl, inr, refl, true, Option, none, some, List, [], ◌∷◌, Bool-cases, if_split,
  Result, ok, err,
}
use pisaller.Base.Int.{ℤ}
use pisaller.Base.Text.{list_eq, list_eq_refl}
use pisaller.Stream.{Conn}
use pisaller.Protocol.{handshake_ok, read_handshake_request, write_handshake_response}
use pisaller.Server.{
  Verdict, dropped, welcomed, serve_handshake, answer_request, after_response, is_allowed,
}
use pisaller.Session.{ClientSession, new_client_session}
use pisaller.Session.Accept.{accept_streams, answers, accept_streams-answers}
use pisaller.Server.WebSocket.{
  Sessions, store, delete_session, load_session, Layer, unmade, live, closed, Layers, Handled,
  returned, serving, Arrival, register, on_stream, handle_web_socket, after_done,
}

pub load-store :
    (k : List ℕ) (v : ClientSession) (m : Sessions) → load_session k (store k v m) ≡ some v
unfolding store load_session
load-store k v [] = rw (list_eq_refl k)
load-store k v ((j, w) ∷ m) = elim (Bool-cases (list_eq j k)) [
  | inl same ↦ rw (same, list_eq_refl k)
  | inr other ↦ rw (other, other) (load-store k v m)
]

pub load-delete : (k : List ℕ) (m : Sessions) → load_session k (delete_session k m) ≡ none
unfolding delete_session load_session
load-delete k [] = refl
load-delete k ((j, w) ∷ m) = elim (Bool-cases (list_eq j k)) [
  | inl same ↦ rw same (load-delete k m)
  | inr other ↦ rw (other, other) (load-delete k m)
]

-- Who is welcomed is configured.
IsDecided : List (List ℕ) → Verdict → Type 0
IsDecided bins dropped = Unit {0}
IsDecided bins (welcomed uuid) = is_allowed uuid bins ≡ true

after_response-IsDecided :
    (bins : List (List ℕ)) (uuid : List ℕ) (r : Result (Unit {0}) × Conn)
    → is_allowed uuid bins ≡ true
    → IsDecided bins (after_response uuid r).0
unfolding IsDecided
after_response-IsDecided bins uuid (ok done, c) h = h
after_response-IsDecided bins uuid (err e, c) h = tt

answer_request-IsDecided :
    (later : ℕ) (timeout : ℤ) (bins : List (List ℕ)) (r : Result (List ℕ) × Conn)
    → IsDecided bins (answer_request later timeout bins r).0
unfolding answer_request IsDecided
answer_request-IsDecided later timeout bins (err e, c) = tt
answer_request-IsDecided later timeout bins (ok uuid, c) =
    if_split (λ (v : Verdict × Conn). IsDecided bins v.0) (is_allowed uuid bins)
      (λ h.
        after_response-IsDecided bins uuid (write_handshake_response later handshake_ok timeout c)
          h)
      λ h. tt

-- A layer that was made is closed.
abbrev pub IsShut : Layer → Type 0
IsShut unmade = Unit {0}
IsShut live = ⊥
IsShut closed = Unit {0}

abbrev pub AreShut : Layers → Type 0
AreShut l = IsShut l.ws × IsShut l.smux × IsShut l.stream

-- What handleWebSocket comes to, from a map of sessions: it returns with the map as it was and no
-- layer open, or it serves an allowed client, and then in the end everything is closed.
abbrev pub Ends : List (List ℕ) → Sessions → Handled × Sessions → Type 0
Ends bins m r =
    ((l : Layers) × (r ≡ (returned l, m)) × AreShut l)
    ⊎ ((uuid : List ℕ) × (is_allowed uuid bins ≡ true)
        × (r ≡ (serving (new_client_session uuid), store uuid (new_client_session uuid) m))
        × (load_session uuid r.1 ≡ some (new_client_session uuid))
        × ((xs : List (ℕ × ℕ))
            → (t : ClientSession) × (accept_streams (answers xs) (new_client_session uuid) ≡ some t)
              × (after_done t r.1 ≡ (
                returned (record { ws = closed; smux = closed; stream = closed }),
                delete_session uuid r.1,
              ))
              × (load_session uuid (delete_session uuid r.1) ≡ none)))

register-Ends :
    (bins : List (List ℕ)) (v : Verdict × Conn) (m : Sessions)
    → IsDecided bins v.0
    → Ends bins m (register v m)
unfolding IsDecided new_client_session after_done
register-Ends bins (dropped, c) m h = inl (_, refl, (tt, tt, tt))
register-Ends bins (welcomed uuid, c) m h =
    let sess = new_client_session uuid in
    inr (
      uuid,
      h,
      refl,
      load-store uuid sess m,
      λ xs.
          let (t, e, i, d, s, w) = accept_streams-answers xs sess [] refl refl in
          (t, e, rw (d, s, w, i), load-delete uuid (store uuid sess m)),
    )

-- Whatever Upgrade, smux.Server, AcceptStream and the first stream turn out to do, handleWebSocket
-- either returns with the map of sessions as it was and every layer that was made closed, or waits
-- on a new session under an allowed UUID, which the map has under it; and then, whichever streams
-- acceptStreams takes until AcceptStream fails, it returns, with the WebSocket, smux and the first
-- stream closed and the UUID gone from the map.
pub handle_web_socket-Ends :
    (now later : ℕ) (timeout : ℤ) (bins : List (List ℕ)) (a : Arrival) (m : Sessions)
    → Ends bins m (handle_web_socket now later timeout bins a m)
unfolding handle_web_socket serve_handshake
handle_web_socket-Ends now later timeout bins a m =
    if_split (Ends bins m) a.upgraded
      (λ u.
        if_split (Ends bins m) a.smux_made (λ s. streamed a.first) λ s. inl (_, refl, (tt, tt, tt)))
      λ u. inl (_, refl, (tt, tt, tt))
  where
    streamed : (first : Option Conn) → Ends bins m (on_stream now later timeout bins first m)
    streamed none = inl (_, refl, (tt, tt, tt))
    streamed (some c) =
        register-Ends bins (serve_handshake now later timeout bins c) m
          (answer_request-IsDecided later timeout bins (read_handshake_request now timeout c))
