-- ===== src/DnAgg/Race.antt =====
-- Bytes through the aggregator: what the flusher's sections keep, and what a Write between two of
-- them loses.
use pisaller.Base.{
  ℕ, ◌+◌, ◌≤◌, ◌≡◌, ◌≢◌, refl, false, Option, none, List, [], ◌∷◌, ◌++◌, length, join, ◌==◌,
  if_split, arith, ne→==, le→ltb, append-nil, Bool-cases, inl, inr, Error,
}
use pisaller.DnAgg.{
  Aggregator, Flusher, poll, on_timer, on_stop, flush_now, stream_by, stream_write, write_queue,
  copy_queue_locked, clear_queue, agg_write,
}

-- What the stream has taken, and what is still queued.
abbrev pub accounted : Aggregator → List ℕ
accounted a = a.out ++ join a.queue

-- `total` counts the queue.
abbrev pub IsCounted : Aggregator → Type 0
IsCounted a = length (join a.queue) ≡ a.total

pub no_bytes : (xs : List ℕ) → length xs ≡ 0 → xs ≡ []
no_bytes [] e = refl
no_bytes (x ∷ xs) e = absurd (omega arith)

pub stream_healthy :
    (fs : List (Option Error)) (p : List ℕ) (a : Aggregator)
    → fs ≡ []
    → stream_by fs p a ≡ (none, record a { out = a.out ++ p })
stream_healthy fs p a h = rw h

-- The bytes that are there before a flusher's action are there after it, and the queue is counted.
abbrev pub Conserves : Aggregator → Aggregator → Type 0
Conserves a b = (accounted b ≡ accounted a) × IsCounted b

flush_now-Conserves : (a : Aggregator) → a.faults ≡ [] → IsCounted a → Conserves a (flush_now a)
unfolding flush_now write_queue copy_queue_locked stream_write clear_queue
flush_now-Conserves a h k = elim (Bool-cases (a.total == 0)) [
  | inl nothing ↦ rw nothing (refl, k)
  | inr bytes ↦ rw bytes (
      if_split (Conserves a) (length a.queue == 0) (λ _. (refl, k))
        λ _.
          rw (stream_healthy a.faults (join a.queue) a h)
            (append-nil (a.out ++ join a.queue), refl))
]

-- Each section of the flusher on its own, on a stream that takes everything, keeps the bytes: those
-- that the stream has taken and then the queued ones stay the same, and the queue stays counted.
pub flusher-Conserves :
    (a : Aggregator) (f : Flusher)
    → a.faults ≡ []
    → IsCounted a
    → Conserves a (poll a f).1 × Conserves a (on_timer a f).0 × Conserves a (on_stop a)
unfolding poll on_timer on_stop
flusher-Conserves a f h k = (polled, timed, stopped)
  where
    same : Conserves a a
    same = (refl, k)

    flushed : Conserves a (flush_now a)
    flushed = flush_now-Conserves a h k

    polled : Conserves a (poll a f).1
    polled = ground (arith, same, flushed)

    timed : Conserves a (on_timer a f).0
    timed = ground (arith, same, flushed)

    stopped : Conserves a (on_stop a)
    stopped = if_split (Conserves a) (length a.queue == 0) (λ _. same) λ _. flushed

-- The bug between the sections of writeQueue: the flusher copies the queue and lets go of the lock,
-- Write puts `p` into the queue and reports success, the flusher sends the copy and then drops the
-- whole queue. So `p` is neither sent nor queued.
pub write_between_lost :
    (flush : Aggregator → Option Error × Aggregator) (p : List ℕ) (a : Aggregator)
    → a.faults ≡ []
    → a.total ≢ 0
    → length p ≢ 0
    → a.closed ≡ false
    → a.total + length p ≤ a.max_queue
    → let copy = copy_queue_locked a in
      let b = agg_write flush p a in
      let sent = stream_write (join copy) b.1 in
      let c = clear_queue sent.0 sent.1 in
      (b.0 ≡ (length p, none)) × (c.out ≡ a.out ++ join a.queue) × (c.queue ≡ [])
unfolding copy_queue_locked agg_write stream_write clear_queue
write_between_lost flush p a h t n o m =
    simp (ne→== a.total 0 t, ne→== (length p) 0 n, o, le→ltb a.max_queue (a.total + length p) m, h)
      (refl, refl, refl)
