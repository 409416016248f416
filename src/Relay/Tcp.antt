-- ===== src/Relay/Tcp.antt =====
-- handleTCPStream of internal/relay/tcp.go: its goroutines as a step relation. One reads the stream
-- into the channel dataCh, one dials, one copies from the target to the stream; the handler waits
-- for the dial, and then writes what comes out of dataCh to the target.
pub mod Pipe
pub mod Loss
use pisaller.Base.{
  ℕ, ◌+◌, ◌≤◌, ◌<◌, ◌≡◌, ◌≢◌, Bool, true, false, Option, none, some, List, [], ◌∷◌, ◌++◌, length,
  take, Error, eof,
}

-- Where the handler stands.
pub data Phase : Type 0 where
  dialling : Phase
  forwarding : Phase
  finished : Phase

pub record Tunnel : Type 0 where
  pub phase : Phase
  -- What the reader has put into dataCh; what is in it; whether it is closed.
  pub read_up : List ℕ
  pub data_ch : List (List ℕ)
  pub reader_done : Bool
  -- A connection in dialCh, and the errors in errCh (which has room for both senders).
  pub dial_ch : Bool
  pub dial_done : Bool
  pub err_ch : List Error
  -- What the target has taken, what was read from it, and what the stream has taken.
  pub to_target : List ℕ
  pub read_down : List ℕ
  pub to_stream : List ℕ
  pub copier_done : Bool
  pub cancelled : Bool
  -- Whether the time for the dial is over.
  pub expired : Bool

-- `make(chan []byte, 1024)`
abbrev pub data_ch_size : ℕ
data_ch_size = 1024

abbrev pub start : Tunnel
start = record {
  phase = dialling;
  read_up = [];
  data_ch = [];
  reader_done = false;
  dial_ch = false;
  dial_done = false;
  err_ch = [];
  to_target = [];
  read_down = [];
  to_stream = [];
  copier_done = false;
  cancelled = false;
  expired = false;
}

-- The handler returns, and its deferred calls run.
abbrev pub finish : Tunnel → Tunnel
finish s = record s { phase = finished; cancelled = true }

pub data Step (s : Tunnel) (t : Tunnel) : Type 0 where
  -- The reader: some bytes, an error, or the end of the context.
  reads :
      (d : List ℕ)
      → s.reader_done ≡ false
      → length d ≢ 0
      → length s.data_ch < data_ch_size
      → t ≡ record s { read_up = s.read_up ++ d; data_ch = s.data_ch ++ (d ∷ []) }
      → Step s t
  read_fails :
      (e : Error)
      → s.reader_done ≡ false
      → t ≡ record s { reader_done = true; err_ch = s.err_ch ++ (e ∷ []) }
      → Step s t
  reader_stops :
      s.reader_done ≡ false → s.cancelled ≡ true → t ≡ record s { reader_done = true } → Step s t
  -- The dialler; when the context has ended it may as well close its connection.
  dials : s.dial_done ≡ false → t ≡ record s { dial_ch = true; dial_done = true } → Step s t
  dial_fails :
      (e : Error)
      → s.dial_done ≡ false
      → t ≡ record s { err_ch = s.err_ch ++ (e ∷ []); dial_done = true }
      → Step s t
  dial_stops :
      s.dial_done ≡ false → s.cancelled ≡ true → t ≡ record s { dial_done = true } → Step s t
  -- The handler's first select: a connection, an error, or the time out.
  connects :
      s.phase ≡ dialling
      → s.dial_ch ≡ true
      → t ≡ record s { phase = forwarding; dial_ch = false }
      → Step s t
  gives_up : s.phase ≡ dialling → s.err_ch ≢ [] → t ≡ finish s → Step s t
  times_out : s.phase ≡ dialling → s.expired ≡ true → t ≡ finish s → Step s t
  expires : t ≡ record s { expired = true } → Step s t
  -- Its loop: some bytes that the target takes, or does not; the end of dataCh; the end of the
  -- context.
  forwards :
      (d : List ℕ) (q : List (List ℕ))
      → s.phase ≡ forwarding
      → s.data_ch ≡ d ∷ q
      → t ≡ record s { to_target = s.to_target ++ d; data_ch = q }
      → Step s t
  forward_fails :
      (d : List ℕ) (q : List (List ℕ)) (n : ℕ)
      → s.phase ≡ forwarding
      → s.data_ch ≡ d ∷ q
      → t ≡ finish (record s { to_target = s.to_target ++ take n d; data_ch = q })
      → Step s t
  drains : s.phase ≡ forwarding → s.data_ch ≡ [] → s.reader_done ≡ true → t ≡ finish s → Step s t
  stops : s.phase ≡ forwarding → s.cancelled ≡ true → t ≡ finish s → Step s t
  -- The copier from the target, which starts behind the dial: some bytes that the stream takes, or
  -- `n` of them only; the end of the target, or an error. Its end cancels the context.
  copies :
      (d : List ℕ)
      → s.phase ≢ dialling
      → s.copier_done ≡ false
      → t ≡ record s { read_down = s.read_down ++ d; to_stream = s.to_stream ++ d }
      → Step s t
  copy_fails :
      (d : List ℕ) (n : ℕ)
      → s.phase ≢ dialling
      → s.copier_done ≡ false
      → t ≡ record s {
        read_down = s.read_down ++ d;
        to_stream = s.to_stream ++ take n d;
        copier_done = true;
        cancelled = true;
      }
      → Step s t
  copier_ends :
      s.phase ≢ dialling
      → s.copier_done ≡ false
      → t ≡ record s { copier_done = true; cancelled = true }
      → Step s t

pub data Reach : Tunnel → Type 0 where
  here : Reach start
  next : {s t : Tunnel} → Reach s → Step s t → Reach t
