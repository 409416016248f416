-- ===== src/Pool.antt =====
-- The pool of cmd/client/main.go: the channels to the server, and the choice of one for a stream.
-- The slices smuxConns and channelRTT, of one length, are one list. What a smux session answers is
-- a part of the session here.
pub mod Choice
pub mod Open
pub mod Probe
pub mod Serve
mod Examples
use pisaller.Base.{
  ℕ, zero, suc, ◌+◌, ◌-◌, ◌%◌, ◌^◌, ◌≡◌, Bool, true, false, Option, none, some, List, [], ◌∷◌,
  length, leb, ltb, ◌==◌, if◌then◌else◌, get_elem?, Result, ok, err, Error, failure,
}
use pisaller.Base.Int.{ℤ, pos, is_pos, to_ℕ}

-- A session: whether it is closed, and what OpenStream answers.
pub record Session : Type 0 where
  pub is_closed : Bool
  pub open_stream : Result ℕ

pub record Channel : Type 0 where
  pub smux_conn : Option Session
  pub rtt : ℤ

pub record EchPool : Type 0 where
  pub channels : List Channel
  pub select_counter : ℕ
  -- The nanoseconds of conf.DialTimeout, for one that is not negative.
  pub dial_timeout : ℕ

pub record Candidate : Type 0 where
  pub idx : ℕ
  pub rtt : ℕ

abbrev pub no_channel : Error
no_channel = failure 20

abbrev pub channel_gone : Error
channel_gone = failure 21

-- The time of a channel in use, and none for one without a session or with a closed one.
abbrev pub live_rtt : ℕ → Channel → Option ℕ
live_rtt timeout ch = session_rtt ch.smux_conn
  where
    session_rtt : Option Session → Option ℕ
    session_rtt none = none
    session_rtt (some s) =
        if s.is_closed then none else some (if is_pos ch.rtt then to_ℕ ch.rtt else timeout)

abbrev pub with_candidate : ℕ → Option ℕ → List Candidate → List Candidate
with_candidate i none rest = rest
with_candidate i (some r) rest = record { idx = i; rtt = r } ∷ rest

-- The first loop of openBestStream, from the index `i`.
unfoldable pub candidates : ℕ → ℕ → List Channel → List Candidate
candidates timeout i [] = []
candidates timeout i (ch ∷ chs) =
    with_candidate i (live_rtt timeout ch) (candidates timeout (suc i) chs)

-- The loop for the minimum.
unfoldable pub min_rtt : ℕ → List Candidate → ℕ
min_rtt m [] = m
min_rtt m (c ∷ cs) = min_rtt (if ltb c.rtt m then c.rtt else m) cs

abbrev pub tie_window : ℕ
tie_window = 10000000

unfoldable pub within : ℕ → List Candidate → List Candidate
within bound [] = []
within bound (c ∷ cs) = let rest = within bound cs in if leb c.rtt bound then c ∷ rest else rest

-- The loop for the near ones: `minRTT+tieWindow` is an int64, and negative when it overflows.
unfoldable pub near : ℕ → List Candidate → List Candidate
near m cs = if ltb (m + tie_window) (2 ^ 63) then within (m + tie_window) cs else []

-- `int(n) % len` for a uint64 `n`, as an index; none is the panic of a division by zero or of a
-- negative index.
unfoldable pub pick : ℕ → ℕ → Option ℕ
pick n len =
    if len == 0
    then none
    else if ltb n (2 ^ 63)
    then some (n % len)
    else if (2 ^ 64 - n) % len == 0
    then some 0
    else none

-- What comes of the choice.
pub data Picked : Type 0 where
  refused : Picked
  panics : Picked
  picked : ℕ → Picked

abbrev pub candidate_at : List Candidate → Option ℕ → Picked
candidate_at cs none = panics
candidate_at cs (some i) = elim (get_elem? cs i) [ none ↦ panics | some c ↦ picked c.idx ]

-- openBestStream up to the choice; an empty list of candidates leaves the counter alone.
unfoldable pub choose : List Candidate → EchPool → Picked × EchPool
choose [] p = (refused, p)
choose (c ∷ cs) p =
    let close_by = near (min_rtt c.rtt cs) (c ∷ cs) in
    (
      candidate_at close_by (pick p.select_counter (length close_by)),
      record p { select_counter = (p.select_counter + 1) % 2 ^ 64 },
    )

unfoldable pub select_channel : EchPool → Picked × EchPool
select_channel p = choose (candidates p.dial_timeout 0 p.channels) p

-- The second look at the session, and OpenStream: the stream, and the channel's number.
abbrev pub open_session : ℕ → Option Session → Result (ℕ × ℕ)
open_session idx none = err channel_gone
open_session idx (some s) = if s.is_closed then err channel_gone else numbered s.open_stream
  where
    numbered : Result ℕ → Result (ℕ × ℕ)
    numbered (ok stream) = ok (stream, idx + 1)
    numbered (err e) = err e

unfoldable pub open_at : ℕ → List Channel → Option (Result (ℕ × ℕ))
open_at idx chs = elim (get_elem? chs idx) [
  | none ↦ none
  | some ch ↦ some (open_session idx ch.smux_conn)
]

-- openBestStream. Between its two looks at the pool the lock is free; `between` is what the other
-- goroutines do to the pool there. none is a panic.
unfoldable pub open_best_stream : (EchPool → EchPool) → EchPool → Option (Result (ℕ × ℕ)) × EchPool
open_best_stream between p = let chosen = select_channel p in after_choice chosen.0 chosen.1
  where
    after_choice : Picked → EchPool → Option (Result (ℕ × ℕ)) × EchPool
    after_choice refused q = (some (err no_channel), q)
    after_choice panics q = (none, q)
    after_choice (picked idx) q = (open_at idx (between q).channels, between q)

-- An entry of the slices is replaced.
pub set_channel : ℕ → (Channel → Channel) → List Channel → List Channel
set_channel idx f [] = []
set_channel zero f (ch ∷ chs) = f ch ∷ chs
set_channel (suc idx) f (ch ∷ chs) = ch ∷ set_channel idx f chs

-- dialAndServe puts a new session in, and takes it out when the channel is over; either way the
-- time is 0.
pub install : ℕ → Option Session → EchPool → EchPool
unfolding set_channel
install idx s p = record p {
  channels = set_channel idx (λ ch. record { smux_conn = s; rtt = pos 0 }) p.channels;
}

-- What a probe stores: the time that it measured, or conf.DialTimeout where it failed.
pub store_rtt : ℕ → ℤ → EchPool → EchPool
unfolding set_channel
store_rtt idx t p = record p { channels = set_channel idx (λ ch. record ch { rtt = t }) p.channels }
