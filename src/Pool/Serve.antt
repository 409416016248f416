-- ===== src/Pool/Serve.antt =====
-- dialAndServe and probeChannelRTT of cmd/client/main.go: the life of one channel of the pool as a
-- step relation, with its entries in smuxConns and channelRTT. Sleeps and tickers are steps that
-- wait.
pub mod Entry
use pisaller.Base.{ℕ, ◌≡◌, Bool, true, false, Option, none, some, List, [], ◌∷◌, ◌++◌}

-- Where dialAndServe stands with the connection of a number: it dials; it makes the first probe; it
-- waits for `done` or for the death of the connection; it waits for `done` behind that; it has
-- closed.
pub data Phase : Type 0 where
  dialling : Phase
  probing : ℕ → Phase
  serving : ℕ → Phase
  dying : ℕ → Phase
  ending : ℕ → Phase

pub record Slot : Type 0 where
  pub phase : Phase
  -- The two entries of the pool.
  pub smux_conn : Option ℕ
  pub channel_rtt : ℕ
  -- Whether the session is closed, and whether probeChannelRTT runs (`done` has a value when it has
  -- ended).
  pub sess_closed : Bool
  pub prober : Bool
  -- The WebSocket connections that were dialled, and those that were closed.
  pub dialled : List ℕ
  pub shut : List ℕ

-- As startPool makes it.
abbrev pub start : Slot
start = record {
  phase = dialling;
  smux_conn = none;
  channel_rtt = 0;
  sess_closed = false;
  prober = false;
  dialled = [];
  shut = [];
}

-- `timeout` is the dial timeout in nanoseconds, which a failed probe stores.
module _ (timeout : ℕ) where
  pub data Step (s : Slot) : Slot → Type 0 where
    -- The dial fails, or smux.Client does; or both succeed.
    dial_fails : s.phase ≡ dialling → Step s s
    smux_fails :
        (w : ℕ)
        → s.phase ≡ dialling
        → Step s (record s { dialled = s.dialled ++ (w ∷ []); shut = s.shut ++ (w ∷ []) })
    installs :
        (w : ℕ)
        → s.phase ≡ dialling
        → Step s (record s {
          phase = probing w;
          smux_conn = some w;
          channel_rtt = 0;
          sess_closed = false;
          dialled = s.dialled ++ (w ∷ []);
        })
    -- The first probe, and the start of the prober.
    first_probe :
        (w rtt : ℕ)
        → s.phase ≡ probing w
        → Step s (record s { phase = serving w; channel_rtt = rtt; prober = true })
    first_probe_fails :
        (w : ℕ) → s.phase ≡ probing w → Step s (record s { phase = serving w; prober = true })
    -- A round of the prober.
    probes : (rtt : ℕ) → s.prober ≡ true → Step s (record s { channel_rtt = rtt })
    probe_fails :
        s.prober ≡ true → s.sess_closed ≡ false → Step s (record s { channel_rtt = timeout })
    prober_ends :
        s.prober ≡ true
        → s.sess_closed ≡ true
        → Step s (record s { channel_rtt = timeout; prober = false })
    -- The session breaks by itself.
    breaks : Step s (record s { sess_closed = true })
    -- The select, and the wait behind the connection's death.
    dies : (w : ℕ) → s.phase ≡ serving w → Step s (record s { phase = dying w; sess_closed = true })
    is_done :
        (w : ℕ)
        → s.phase ≡ serving w
        → s.prober ≡ false
        → Step s (record s { phase = ending w; sess_closed = true; shut = s.shut ++ (w ∷ []) })
    dead_is_done :
        (w : ℕ)
        → s.phase ≡ dying w
        → s.prober ≡ false
        → Step s (record s { phase = ending w; sess_closed = true; shut = s.shut ++ (w ∷ []) })
    clears :
        (w : ℕ)
        → s.phase ≡ ending w
        → Step s (record s { phase = dialling; smux_conn = none; channel_rtt = 0 })

  pub data Reach : Slot → Type 0 where
    here : Reach start
    next : {s t : Slot} → Reach s → Step s t → Reach t
