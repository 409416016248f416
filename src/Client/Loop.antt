-- ===== src/Client/Loop.antt =====
-- connectLoop of cmd/client/main.go, with keepAlive, acceptStreams and what main does on a signal,
-- as a step relation. A connection's number is the number of dials before it. Every session is made
-- with conf.UUID, so the test of its ID at the head of the loop always holds. Sleeps are steps that
-- wait.
pub mod Orderly
pub mod Sessions
pub mod Signal
use pisaller.Base.{
  ℕ, suc, ◌≡◌, Bool, true, false, ◌||◌, Option, none, some, List, [], ◌∷◌, ◌==◌, if◌then◌else◌,
  Error, Result, ok, err,
}
use pisaller.Base.Int.{ℤ}
use pisaller.Stream.{Conn}
use pisaller.Client.{do_handshake}

-- Where connectLoop stands: at its head; behind dialWS, or behind smux.Client, with a connection;
-- at `<-sess.Done()`.
pub data Phase : Type 0 where
  head : Phase
  dialled : ℕ → Phase
  muxed : ℕ → Phase
  waiting : ℕ → Phase

pub record Loop : Type 0 where
  pub phase : Phase
  -- currentSession
  pub current : Option ℕ
  pub dials : ℕ
  -- The WebSocket connections and the smux sessions that nobody has closed, and the sessions whose
  -- Close has run.
  pub open_ws : List ℕ
  pub open_smux : List ℕ
  pub done : List ℕ
  -- The sessions whose keepAlive, and whose acceptStreams, runs.
  pub keepers : List ℕ
  pub accepters : List ℕ
  -- Whether main has got its signal.
  pub signalled : Bool

abbrev pub start : Loop
start = record {
  phase = head;
  current = none;
  dials = 0;
  open_ws = [];
  open_smux = [];
  done = [];
  keepers = [];
  accepters = [];
  signalled = false;
}

abbrev pub has : ℕ → List ℕ → Bool
has n [] = false
has n (k ∷ ks) = k == n || has n ks

abbrev pub without : ℕ → List ℕ → List ℕ
without n [] = []
without n (k ∷ ks) = let rest = without n ks in if k == n then rest else k ∷ rest

-- Close of a session, under its closeOnce.
abbrev pub close : ℕ → Loop → Loop
close n s = if has n s.done then s else record s {
  done = n ∷ s.done;
  open_smux = without n s.open_smux;
  open_ws = without n s.open_ws;
}

-- setClientSession and getClientSession.
abbrev pub set_client_session : Option ℕ → Loop → Loop
set_client_session o s = record s { current = o }

abbrev pub get_client_session : Loop → Option ℕ
get_client_session s = s.current

-- keepAlive behind an error of OpenStream, and behind the end of the session.
abbrev pub keeper_closed : ℕ → Loop → Loop
keeper_closed n s = close n (record s { keepers = without n s.keepers })

abbrev pub keeper_ended : ℕ → Loop → Loop
keeper_ended n s = record s { keepers = without n s.keepers }

-- acceptStreams behind an error of AcceptStream.
abbrev pub accepter_closed : ℕ → Loop → Loop
accepter_closed n s = close n (record s { accepters = without n s.accepters })

-- main behind its signal: Close of the current session.
abbrev pub close_current : Option ℕ → Loop → Loop
close_current none s = s
close_current (some n) s = close n s

-- doHandshake behind OpenStream; none is an error of OpenStream.
abbrev pub handshake : ℕ → ℕ → List ℕ → ℤ → Option Conn → Bool
handshake now later uuid timeout none = false
handshake now later uuid timeout (some c) = elim (do_handshake now later uuid timeout c).0 [
  | err e ↦ false
  | ok done_ ↦ true
]

module _ (uuid : List ℕ) (timeout : ℤ) where
  pub data Step (s : Loop) : Loop → Type 0 where
    -- The two tests at the head, and a dial that fails.
    has_session : (n : ℕ) → s.phase ≡ head → get_client_session s ≡ some n → Step s s
    no_pool : s.phase ≡ head → get_client_session s ≡ none → Step s s
    dial_fails : s.phase ≡ head → get_client_session s ≡ none → Step s s
    dials_ws :
        s.phase ≡ head
        → get_client_session s ≡ none
        → Step s (record s {
          phase = dialled s.dials;
          dials = suc s.dials;
          open_ws = s.dials ∷ s.open_ws;
        })
    mux_fails :
        (n : ℕ)
        → s.phase ≡ dialled n
        → Step s (record s { phase = head; open_ws = without n s.open_ws })
    muxes :
        (n : ℕ)
        → s.phase ≡ dialled n
        → Step s (record s { phase = muxed n; open_smux = n ∷ s.open_smux })
    handshake_fails :
        (n now later : ℕ) (stream : Option Conn)
        → s.phase ≡ muxed n
        → handshake now later uuid timeout stream ≡ false
        → Step s (record s {
          phase = head;
          open_smux = without n s.open_smux;
          open_ws = without n s.open_ws;
        })
    shakes_hands :
        (n now later : ℕ) (stream : Option Conn)
        → s.phase ≡ muxed n
        → handshake now later uuid timeout stream ≡ true
        → Step s (
            set_client_session (some n) (record s {
              phase = waiting n;
              keepers = n ∷ s.keepers;
              accepters = n ∷ s.accepters;
            }))
    -- keepAlive cannot open a stream, or sees that the session is done; acceptStreams gets an
    -- error.
    keeper_closes : (n : ℕ) → has n s.keepers ≡ true → Step s (keeper_closed n s)
    keeper_ends : (n : ℕ) → has n s.keepers ≡ true → has n s.done ≡ true → Step s (keeper_ended n s)
    accepter_closes : (n : ℕ) → has n s.accepters ≡ true → Step s (accepter_closed n s)
    -- The session is done.
    resumes :
        (n : ℕ)
        → s.phase ≡ waiting n
        → has n s.done ≡ true
        → Step s (set_client_session none (record s { phase = head }))
    -- main gets its signal, and closes the session, if there is one.
    signal :
        s.signalled ≡ false
        → Step s (close_current (get_client_session s) (record s { signalled = true }))

  pub data Run (s : Loop) : Loop → Type 0 where
    here : Run s s
    next : {t u : Loop} → Run s t → Step t u → Run s u

  abbrev pub Reach : Loop → Type 0
  Reach t = Run start t
