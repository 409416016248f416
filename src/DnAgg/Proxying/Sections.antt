-- ===== src/DnAgg/Proxying/Sections.antt =====
-- What the flusher's sections of internal/transport/dnagg.go keep, while ProxyConnStream runs.
use pisaller.Base.{
  ℕ, ◌+◌, ◌≤◌, ◌≡◌, refl, ap, Bool, true, false, ◌&&◌, ◌⊎◌, Option, none, some, List, [], ◌∷◌, ◌++◌,
  length, join, ◌==◌, arith, append-nil, Bool-cases, inl, inr, Error,
}
use pisaller.DnAgg.{Aggregator, agg_write, copy_queue_locked, stream_write, clear_queue}
use pisaller.DnAgg.Race.{accounted, IsCounted, stream_healthy}
use pisaller.DnAgg.Proxying.{
  Flight, idle, copied, sent, Proxy, Event, reads, fails, copies, sends, clears, take_copy,
  copy_section, send_section, clear_section,
}

-- The bytes that are read before the loop ends.
abbrev pub bytes_of : List Event → List ℕ
bytes_of [] = []
bytes_of (fails ∷ es) = []
bytes_of (reads d ∷ es) = d ++ bytes_of es
bytes_of (copies ∷ es) = bytes_of es
bytes_of (sends ∷ es) = bytes_of es
bytes_of (clears ∷ es) = bytes_of es

abbrev pub is_idle : Flight → Bool
is_idle idle = true
is_idle (copied queue) = false
is_idle (sent r) = false

-- Every Read of bytes comes when the flusher is in no flush.
unfoldable pub reads_apart : (Aggregator → Option Error × Aggregator) → List Event → Proxy → Bool
reads_apart flush [] p = true
reads_apart flush (fails ∷ es) p = true
reads_apart flush (reads [] ∷ es) p = reads_apart flush es p
reads_apart flush (reads (x ∷ d) ∷ es) p =
    is_idle p.flight && reads_apart flush es (record p { agg = (agg_write flush (x ∷ d) p.agg).1 })
reads_apart flush (copies ∷ es) p = reads_apart flush es (copy_section p)
reads_apart flush (sends ∷ es) p = reads_apart flush es (send_section p)
reads_apart flush (clears ∷ es) p = reads_apart flush es (clear_section p)

-- The bytes that the stream has taken and those that it will take of the queue: all, unless the
-- queue was written and not yet cleared.
abbrev pub taken_from : Flight → Aggregator → List ℕ
taken_from idle a = accounted a
taken_from (copied queue) a = accounted a
taken_from (sent r) a = a.out

abbrev pub taken : Proxy → List ℕ
taken p = taken_from p.flight p.agg

-- The copy is the queue, and a write has succeeded.
abbrev pub Matches : Flight → Aggregator → Type 0
Matches idle a = Unit {0}
Matches (copied queue) a = queue ≡ a.queue
Matches (sent r) a = r ≡ none

-- A stream that takes everything, a counted queue, and room for `n` bytes more.
pub record IsSteady (n : ℕ) (p : Proxy) : Type 0 where
  pub healthy : p.agg.faults ≡ []
  pub counted : IsCounted p.agg
  pub room : p.agg.total + n ≤ p.agg.max_queue
  pub matches : Matches p.flight p.agg

-- A section of the flusher keeps all of it, the bytes, and whether the aggregator is closed.
abbrev Kept : ℕ → Proxy → Proxy → Type 0
Kept n p q = IsSteady n q × (taken q ≡ taken p) × (q.agg.closed ≡ p.agg.closed)

abbrev pub at_flight : Aggregator → Flight → Proxy
at_flight a f = record { agg = a; flight = f }

copied-Kept :
    (n : ℕ) (a : Aggregator) (queue : List (List ℕ))
    → IsSteady n (at_flight a idle)
    → (queue ≡ []) ⊎ (queue ≡ a.queue)
    → Kept n (at_flight a idle) (take_copy queue (at_flight a idle))
copied-Kept n a [] r e = (r, refl, refl)
copied-Kept n a (x ∷ queue) r (inl e) = absurd (cc e)
copied-Kept n a (x ∷ queue) r (inr e) =
    let some_queued : (length (x ∷ queue) == 0) ≡ false = ground arith in
    rw some_queued
      (record { healthy = r.healthy; counted = r.counted; room = r.room; matches = e }, refl, refl)

copy_queue_locked-cases :
    (a : Aggregator) → (copy_queue_locked a ≡ []) ⊎ (copy_queue_locked a ≡ a.queue)
unfolding copy_queue_locked
copy_queue_locked-cases a = elim (Bool-cases (a.total == 0)) [
  | inl nothing ↦ inl (rw nothing refl)
  | inr bytes ↦ inr (rw bytes refl)
]

pub copy_section-Kept :
    (n : ℕ) (a : Aggregator) (f : Flight)
    → IsSteady n (at_flight a f)
    → Kept n (at_flight a f) (copy_section (at_flight a f))
copy_section-Kept n a idle r = copied-Kept n a (copy_queue_locked a) r (copy_queue_locked-cases a)
copy_section-Kept n a (copied queue) r = (r, refl, refl)
copy_section-Kept n a (sent e) r = (r, refl, refl)

pub send_section-Kept :
    (n : ℕ) (a : Aggregator) (f : Flight)
    → IsSteady n (at_flight a f)
    → Kept n (at_flight a f) (send_section (at_flight a f))
unfolding stream_write
send_section-Kept n a idle r = (r, refl, refl)
send_section-Kept n a (copied queue) r = rw (stream_healthy a.faults (join queue) a r.healthy) (
  record { healthy = r.healthy; counted = r.counted; room = r.room; matches = refl },
  ap (λ q. a.out ++ join q) r.matches,
  refl,
)
send_section-Kept n a (sent e) r = (r, refl, refl)

pub clear_section-Kept :
    (n : ℕ) (a : Aggregator) (f : Flight)
    → IsSteady n (at_flight a f)
    → Kept n (at_flight a f) (clear_section (at_flight a f))
unfolding clear_queue
clear_section-Kept n a idle r = (r, refl, refl)
clear_section-Kept n a (copied queue) r = (r, refl, refl)
clear_section-Kept n a (sent none) r = (
  record { healthy = r.healthy; counted = refl; room = omega (arith, r.room); matches = tt },
  append-nil a.out,
  refl,
)
clear_section-Kept n a (sent (some e)) r = absurd (cc r.matches)
