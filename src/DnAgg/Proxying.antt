-- ===== src/DnAgg/Proxying.antt =====
-- ProxyConnStream of internal/transport/dnagg.go: what is read from the connection goes through an
-- aggregator to the stream, while the flusher sends the queue in three sections, the copy of the
-- queue, the write of the copy, and the clear of the queue. When the flusher flushes is left open
-- here, so any flush that it decides on is among those of a run.
pub mod Sections
pub mod Accounting
use pisaller.Base.{
  ℕ, Bool, true, false, ◌&&◌, Option, none, some, List, [], ◌∷◌, ◌++◌, length, join, ◌==◌,
  if◌then◌else◌, Error,
}
use pisaller.DnAgg.{
  Aggregator, on_stop, agg_write, agg_close, copy_queue_locked, stream_write, clear_queue,
}

-- Where the flusher is in a flush: in none, behind the copy, or behind the write with its result.
pub data Flight : Type 0 where
  idle : Flight
  copied : List (List ℕ) → Flight
  sent : Option Error → Flight

pub record Proxy : Type 0 where
  pub agg : Aggregator
  pub flight : Flight

-- A Read of the connection: bytes, or the error that ends the loop; or a section of the flusher.
pub data Event : Type 0 where
  reads : List ℕ → Event
  fails : Event
  copies : Event
  sends : Event
  clears : Event

-- The copy, under the lock; writeQueue does nothing with an empty one.
abbrev pub take_copy : List (List ℕ) → Proxy → Proxy
take_copy queue p = if length queue == 0 then p else record p { flight = copied queue }

abbrev pub copy_from : Flight → Proxy → Proxy
copy_from idle p = take_copy (copy_queue_locked p.agg) p
copy_from (copied queue) p = p
copy_from (sent r) p = p

-- The write, without the lock.
abbrev pub send_from : Flight → Proxy → Proxy
send_from idle p = p
send_from (copied queue) p =
    let r = stream_write (join queue) p.agg in record { agg = r.1; flight = sent r.0 }
send_from (sent r) p = p

-- The clear, under the lock.
abbrev pub clear_from : Flight → Proxy → Proxy
clear_from idle p = p
clear_from (copied queue) p = p
clear_from (sent r) p = record { agg = clear_queue r p.agg; flight = idle }

abbrev pub copy_section : Proxy → Proxy
copy_section p = copy_from p.flight p

abbrev pub send_section : Proxy → Proxy
send_section p = send_from p.flight p

abbrev pub clear_section : Proxy → Proxy
clear_section p = clear_from p.flight p

-- The loop, up to its end: a Read or a Write fails.
abbrev pub after_write : (ℕ × Option Error) × Aggregator → Proxy → (Proxy → Proxy) → Proxy
after_write ((n, some e), a) p more = record p { agg = a }
after_write ((n, none), a) p more = more (record p { agg = a })

unfoldable pub pump : (Aggregator → Option Error × Aggregator) → List Event → Proxy → Proxy
pump flush [] p = p
pump flush (fails ∷ es) p = p
pump flush (reads [] ∷ es) p = pump flush es p
pump flush (reads (x ∷ d) ∷ es) p =
    after_write (agg_write flush (x ∷ d) p.agg) p (λ q. pump flush es q)
pump flush (copies ∷ es) p = pump flush es (copy_section p)
pump flush (sends ∷ es) p = pump flush es (send_section p)
pump flush (clears ∷ es) p = pump flush es (clear_section p)

-- Close: on an open aggregator it waits for the flusher, which ends the flush it is in, sends what
-- is queued and returns.
abbrev pub close_and_wait : Proxy → Aggregator
close_and_wait p =
    if p.agg.closed
    then p.agg
    else on_stop (clear_section (send_section (record p { agg = agg_close p.agg }))).agg

-- ProxyConnStream: behind the loop Close, and then the stream is closed. (The second Close does
-- nothing.)
unfoldable pub proxy_conn_stream :
    (Aggregator → Option Error × Aggregator) → List Event → Proxy → Aggregator × Bool
proxy_conn_stream flush es p = (close_and_wait (pump flush es p), true)
