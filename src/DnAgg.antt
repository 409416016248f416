-- ===== src/DnAgg.antt =====
-- internal/transport/dnagg.go: the aggregator of what goes down to a client. Write queues bytes,
-- and a goroutine, the flusher, sends the queue. Each definition is one section under the lock, or
-- what is done between two. Write calls a method flushLocked that the source does not declare: it
-- is the parameter `flush` here.
pub mod Rounds
pub mod Race
pub mod Wakeup
pub mod Proxying
mod Examples
use pisaller.Base.{
  ℕ, zero, suc, ◌+◌, ◌-◌, ◌*◌, ◌≡◌, Bool, true, false, ◌&&◌, ◌||◌, not, Option, none, some, List,
  [], ◌∷◌, ◌++◌, length, join, leb, ltb, ◌==◌, if◌then◌else◌, Error, closed_pipe,
}
use pisaller.Base.Int.{ℤ, is_pos, to_ℕ}

pub record Aggregator : Type 0 where
  -- The stream: what it has taken, and the outcomes of coming writes; behind them all succeed.
  pub out : List ℕ
  pub faults : List (Option Error)
  pub queue : List (List ℕ)
  pub total : ℕ
  pub dn_pack : ℕ
  pub dn_tail : ℕ
  pub dn_qr : ℕ
  pub closed : Bool
  pub max_queue : ℕ
  pub chunk_ms : ℕ

abbrev pub or_default : ℤ → ℕ → ℕ
or_default x d = if is_pos x then to_ℕ x else d

pub new_dn_aggregator : List (Option Error) → ℤ → ℤ → ℤ → ℤ → Aggregator
new_dn_aggregator faults dn_pack dn_tail dn_qr max_queue = record {
  out = [];
  faults = faults;
  queue = [];
  total = 0;
  dn_pack = or_default dn_pack 32768;
  dn_tail = or_default dn_tail 512;
  dn_qr = or_default dn_qr 4;
  closed = false;
  max_queue = or_default max_queue (or_default dn_pack 32768 * 4);
  chunk_ms = 20;
}

-- stream.Write
abbrev pub stream_by : List (Option Error) → List ℕ → Aggregator → Option Error × Aggregator
stream_by [] p a = (none, record a { out = a.out ++ p })
stream_by (none ∷ fs) p a = (none, record a { out = a.out ++ p; faults = fs })
stream_by (some e ∷ fs) p a = (some e, record a { faults = fs })

pub stream_write : List ℕ → Aggregator → Option Error × Aggregator
stream_write p a = stream_by a.faults p a

abbrev pub direct_result : ℕ → Option Error × Aggregator → (ℕ × Option Error) × Aggregator
direct_result n (none, a) = ((n, none), a)
direct_result n (some e, a) = ((0, some e), record a { closed = true })

pub write_to_stream : List ℕ → Aggregator → (ℕ × Option Error) × Aggregator
unfolding stream_write
write_to_stream p a = direct_result (length p) (stream_write p a)

-- The part of Write that queues a copy. (That it signals the flusher changes no state here.)
pub push : List ℕ → Aggregator → (ℕ × Option Error) × Aggregator
push p a = ((length p, none), record a { queue = a.queue ++ (p ∷ []); total = a.total + length p })

abbrev pub after_flush :
    Option Error × Aggregator
    → (Aggregator → (ℕ × Option Error) × Aggregator)
    → (ℕ × Option Error) × Aggregator
after_flush (some e, a) rest = ((0, some e), a)
after_flush (none, a) rest = rest a

abbrev pub overflow : List ℕ → Aggregator → (ℕ × Option Error) × Aggregator
overflow p a =
    if leb a.dn_pack (length p)
    then write_to_stream p a
    else if ltb a.max_queue (length p)
    then write_to_stream p a
    else push p a

-- Write
pub agg_write :
    (Aggregator → Option Error × Aggregator) → List ℕ → Aggregator → (ℕ × Option Error) × Aggregator
unfolding push write_to_stream
agg_write flush p a =
    if length p == 0
    then ((0, none), a)
    else if a.closed
    then ((0, some closed_pipe), a)
    else if ltb a.max_queue (a.total + length p)
    then after_flush (flush a) (overflow p)
    else push p a

-- copyQueueLocked; nil is [].
pub copy_queue_locked : Aggregator → List (List ℕ)
copy_queue_locked a = if a.total == 0 then [] else a.queue

-- The last section of writeQueue: an error closes the aggregator, and the queue is dropped.
pub clear_queue : Option Error → Aggregator → Aggregator
clear_queue none a = record a { queue = []; total = 0 }
clear_queue (some e) a = record a { closed = true; queue = []; total = 0 }

-- writeQueue on a copy of the queue, with nothing in between.
pub write_queue : List (List ℕ) → Aggregator → Aggregator
unfolding stream_write clear_queue
write_queue queue a =
    if length queue == 0
    then a
    else let sent = stream_write (join queue) a in clear_queue sent.0 sent.1

-- The flusher's own variables.
pub record Flusher : Type 0 where
  pub timer : Bool
  pub qr : ℕ

-- What the flusher does after a section.
pub data Next : Type 0 where
  waits : Next
  returns : Next
  continues : Next
  selects : Next

-- A due queue: enough bytes or enough chunks.
abbrev pub is_due : Aggregator → Bool
is_due a = leb a.dn_pack a.total || leb a.dn_qr (length a.queue)

pub low_water : Aggregator → ℕ
low_water a = if ltb (a.dn_tail * 12) 4096 then 4096 else a.dn_tail * 12

-- A whole flush, with nothing in between.
pub flush_now : Aggregator → Aggregator
unfolding copy_queue_locked write_queue
flush_now a = write_queue (copy_queue_locked a) a

-- The head of the loop, up to the select. `dnPack - total` is computed behind the test that
-- `total < dnPack`. A flush of it comes as a whole.
pub poll : Aggregator → Flusher → Next × Aggregator × Flusher
unfolding flush_now
poll a f =
    if length a.queue == 0
    then (if a.closed then returns else waits, a, f)
    else if is_due a
    then (continues, flush_now a, record f { qr = 0 })
    else if ltb (a.dn_pack - a.total) a.dn_tail
    then (continues, flush_now a, record f { qr = 0 })
    else if f.timer
    then (selects, a, f)
    else (selects, a, record { timer = true; qr = 0 })

-- The select's case of the timer, with a whole flush.
pub on_timer : Aggregator → Flusher → Aggregator × Flusher
unfolding flush_now low_water
on_timer a f =
    let off = record f { timer = false } in
    if a.closed
    then (if length a.queue == 0 then a else flush_now a, off)
    else if length a.queue == 0
    then (a, off)
    else if is_due a
    then (flush_now a, record off { qr = 0 })
    else if leb (low_water a) a.total || leb a.dn_qr f.qr
    then (flush_now a, record off { qr = 0 })
    else if ltb (f.qr + 1) a.dn_qr
    then (a, record off { qr = f.qr + 1 })
    else (flush_now a, record off { qr = 0 })

-- The select's case of the stop channel, with a whole flush; the flusher returns behind it.
pub on_stop : Aggregator → Aggregator
unfolding flush_now
on_stop a = if length a.queue == 0 then a else flush_now a

-- Close, up to the wait for the flusher.
pub agg_close : Aggregator → Aggregator
agg_close a = record a { closed = true }
