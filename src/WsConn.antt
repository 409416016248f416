-- ===== src/WsConn.antt =====
-- internal/transport/wsconn.go: a byte stream over WebSocket messages. Writes are gathered in a
-- queue and leave as one binary message; reads run the messages together. The WebSocket below is a
-- parameter of the state: the messages that wait, the outcomes of coming writes, and what was sent.
pub mod Queue
pub mod Delivery
pub mod Reading
pub mod Closing
pub mod Deadlines
mod Examples
use pisaller.Base.{
  ℕ, zero, suc, ◌+◌, ◌*◌, ◌≡◌, Bool, true, false, ◌&&◌, Option, none, some, List, [], ◌∷◌, ◌++◌,
  length, take, drop, replicate, join, leb, ltb, ◌==◌, if◌then◌else◌, Error, eof, closed,
}
use pisaller.Base.Int.{ℤ, is_pos, to_ℕ}

-- How one binary message turns out, through NextWriter, Write and Close of the writer. Only a
-- `delivered` message reaches the peer.
pub data Outcome : Type 0 where
  delivered : Outcome
  no_writer : Error → Outcome
  write_fails : ℕ → Error → Outcome
  close_fails : Error → Outcome

-- The reader of a message: the bytes left; whether io.EOF comes with the last of them or with the
-- read after them; and the error that stands in its place when the message breaks off.
pub record Reader : Type 0 where
  pub left : List ℕ
  pub eager : Bool
  pub fault : Option Error

-- A message that NextReader hands out.
pub data Message : Type 0 where
  text : Message
  binary : Reader → Message

pub record WsConn : Type 0 where
  pub incoming : List Message
  -- What NextReader answers behind them.
  pub ending : Error
  pub sent : List (List ℕ)
  pub outcomes : List Outcome
  -- What ws.Close answers.
  pub close_error : Option Error
  pub reader : Option Reader
  pub dead_err : Option Error
  pub dead : Bool
  pub closed_flag : Bool
  pub up_queue : List (List ℕ)
  pub up_size : ℕ
  pub up_pack : ℕ
  pub chunk_ms : ℕ
  pub timer : Bool
  pub max_queue : ℕ

-- What is below a connection.
pub record Socket : Type 0 where
  pub messages : List Message
  pub end_error : Error
  pub planned : List Outcome
  pub on_close : Option Error

abbrev pub or_default : ℤ → ℕ → ℕ
or_default x d = if is_pos x then to_ℕ x else d

pub new_ws_net_conn : Socket → ℤ → ℤ → ℤ → WsConn
new_ws_net_conn ws up_pack chunk_ms max_queue = record {
  incoming = ws.messages;
  ending = ws.end_error;
  sent = [];
  outcomes = ws.planned;
  close_error = ws.on_close;
  reader = none;
  dead_err = none;
  dead = false;
  closed_flag = false;
  up_queue = [];
  up_size = 0;
  up_pack = or_default up_pack (20 * 1024);
  chunk_ms = or_default chunk_ms 20;
  timer = false;
  max_queue = or_default max_queue (128 * 1024);
}

-- signalDead at an error: the first one is kept, and the channel is closed.
abbrev pub first_error : Option Error → Error → Option Error
first_error none e = some e
first_error (some d) e = some d

pub signal_dead : Error → WsConn → WsConn
signal_dead e c = record c { dead_err = first_error c.dead_err e; dead = true }

-- NextWriter, Write and Close on the WebSocket: the count of bytes and the error of writeDirect.
abbrev pub send_by : List Outcome → List ℕ → WsConn → (ℕ × Option Error) × WsConn
send_by [] p c = ((length p, none), record c { sent = c.sent ++ (p ∷ []) })
send_by (delivered ∷ os) p c =
    ((length p, none), record c { sent = c.sent ++ (p ∷ []); outcomes = os })
send_by (no_writer e ∷ os) p c = ((0, some e), signal_dead e (record c { outcomes = os }))
send_by (write_fails n e ∷ os) p c = ((n, some e), signal_dead e (record c { outcomes = os }))
send_by (close_fails e ∷ os) p c = ((length p, some e), signal_dead e (record c { outcomes = os }))

pub write_direct : List ℕ → WsConn → (ℕ × Option Error) × WsConn
write_direct p c = send_by c.outcomes p c

-- `make([]byte, total)`, and each chunk copied behind the one before.
abbrev pub gather : ℕ → List (List ℕ) → List ℕ
gather total queue = take total (join queue ++ replicate total 0)

pub flush_locked : WsConn → Option Error × WsConn
flush_locked c =
    if c.up_size == 0
    then (none, c)
    else let emptied = record c { timer = false; up_queue = []; up_size = 0 } in
      if c.closed_flag
      then (some closed, emptied)
      else let result = write_direct (gather c.up_size c.up_queue) emptied in (result.0.1, result.1)

-- What follows a flush: its error, or the rest.
abbrev pub after_flush :
    Option Error × WsConn → (WsConn → (ℕ × Option Error) × WsConn) → (ℕ × Option Error) × WsConn
after_flush (some e, c) rest = ((0, some e), c)
after_flush (none, c) rest = rest c

-- The part of Write that queues a copy of the bytes.
pub enqueue : List ℕ → WsConn → (ℕ × Option Error) × WsConn
enqueue p c =
    let queued = record c { up_queue = c.up_queue ++ (p ∷ []); up_size = c.up_size + length p } in
    if leb queued.up_pack queued.up_size
    then after_flush (flush_locked queued) (λ d. ((length p, none), d))
    else ((length p, none), record queued { timer = if ltb 0 c.chunk_ms then true else c.timer })

-- Behind the flush of a queue that has no room for `p`.
pub write_overflow : List ℕ → WsConn → (ℕ × Option Error) × WsConn
write_overflow p c =
    if leb c.up_pack (length p)
    then write_direct p c
    else if ltb c.max_queue (length p)
    then write_direct p c
    else enqueue p c

pub write_open : List ℕ → WsConn → (ℕ × Option Error) × WsConn
write_open p c =
    if length p == 0
    then ((0, none), c)
    else if ltb c.max_queue (c.up_size + length p)
    then after_flush (flush_locked c) (write_overflow p)
    else enqueue p c

-- Write
pub ws_write : List ℕ → WsConn → (ℕ × Option Error) × WsConn
ws_write p c = if c.closed_flag then ((0, some closed), c) else write_open p c

-- The timer's function.
pub timer_fires : WsConn → WsConn
timer_fires c = (flush_locked c).1

abbrev pub signal_some : Option Error → WsConn → WsConn
signal_some none c = c
signal_some (some e) c = signal_dead e c

abbrev pub or_eof : Option Error → Error
or_eof none = eof
or_eof (some e) = e

pub ws_close : WsConn → Option Error × WsConn
ws_close c =
    if c.closed_flag
    then (some closed, c)
    else let flushed = flush_locked (record c { closed_flag = true }) in
      let d = signal_some flushed.0 flushed.1 in
      (c.close_error, signal_dead (or_eof c.close_error) d)

abbrev pub end_of : Option Error → Error
end_of none = eof
end_of (some e) = e

abbrev pub is_empty : List ℕ → Bool
is_empty [] = true
is_empty (x ∷ xs) = false

-- Does io.EOF come with the read that leaves `rest`?
abbrev pub ends_now : Bool → List ℕ → Option Error → Bool
ends_now eager rest none = eager && is_empty rest
ends_now eager rest (some e) = false

-- One Read of a message's reader into `n` bytes: the bytes, the error, and the reader after it.
abbrev pub read_left : ℕ → Reader → List ℕ → List ℕ × Option Error × Reader
read_left n r [] = ([], some (end_of r.fault), r)
read_left n r (x ∷ xs) =
    let rest = drop n (x ∷ xs) in
    (
      take n (x ∷ xs),
      if ends_now r.eager rest r.fault then some eof else none,
      record r { left = rest },
    )

abbrev pub read_message : ℕ → Reader → List ℕ × Option Error × Reader
read_message n r = read_left n r r.left

-- errors.Is(err, io.EOF)
abbrev pub is_eof : Error → Bool
is_eof eof = true
is_eof e = false

-- What Read makes of that: it returns, or goes round again (`again`) when the message is over.
abbrev pub settle :
    List ℕ × Option Error × Reader
    → WsConn
    → (List ℕ × Option Error) × WsConn
    → (List ℕ × Option Error) × WsConn
settle (got, none, r) c again = ((got, none), record c { reader = some r })
settle (got, some e, r) c again =
    if is_eof e
    then if ltb 0 (length got) then ((got, none), record c { reader = none }) else again
    else ((got, some e), signal_dead e (record c { reader = some r }))

-- The loop of Read with no reader at hand, over the messages that wait.
pub read_messages : ℕ → List Message → WsConn → (List ℕ × Option Error) × WsConn
read_messages n [] c =
    (([], some c.ending), signal_dead c.ending (record c { incoming = []; reader = none }))
read_messages n (text ∷ ms) c = read_messages n ms c
read_messages n (binary r ∷ ms) c =
    settle (read_message n r) (record c { incoming = ms }) (read_messages n ms c)

-- Read into a buffer of `n` bytes: the bytes that it returns, and its error.
abbrev pub read_on : ℕ → Option Reader → WsConn → (List ℕ × Option Error) × WsConn
read_on n none c = read_messages n c.incoming c
read_on n (some r) c = settle (read_message n r) c (read_messages n c.incoming c)

pub ws_read : ℕ → WsConn → (List ℕ × Option Error) × WsConn
ws_read n c = if c.closed_flag then (([], some closed), c) else read_on n c.reader c
