-- ===== src/DnAgg/Examples.antt =====
-- Runs of an aggregator, and the theorems at concrete ones.
use pisaller.Base.{
  ◌≡◌, refl, [], ◌∷◌, none, some, true, false, join, failure, closed_pipe, arith, Option, Error,
  List,
}
use pisaller.DnAgg.{
  Aggregator, Flusher, agg_write, copy_queue_locked, stream_write, clear_queue, on_stop, low_water,
  write_queue, flush_now,
}
use pisaller.DnAgg.Rounds.{IsSmall, timer_rounds, timer_rounds_starve}
use pisaller.DnAgg.Proxying.{Event, reads, fails, copies, sends, clears}
use pisaller.DnAgg.Race.{write_between_lost}

-- Three bytes wait, in the default sizes.
abbrev agg : Aggregator
agg = record {
  out = 9 ∷ [];
  faults = [];
  queue = (1 ∷ 2 ∷ 3 ∷ []) ∷ [];
  total = 3;
  dn_pack = 32768;
  dn_tail = 512;
  dn_qr = 4;
  closed = false;
  max_queue = 131072;
  chunk_ms = 20;
}

abbrev untimed : Flusher
untimed = record { timer = false; qr = 0 }

abbrev no_flush : Aggregator → Option Error × Aggregator
no_flush a = (none, a)

agg-IsSmall : IsSmall agg
unfolding low_water
agg-IsSmall = record {
  some_chunks = λ e. omega arith;
  few_chunks = omega arith;
  several = omega arith;
  few_bytes = omega arith;
  not_tail = omega arith;
  has_tail = omega arith;
  still_open = refl;
}

-- A stream that fails closes the aggregator, and the queue is gone.
failed_stream :
    on_stop (record agg { faults = some (failure 2) ∷ [] })
    ≡ record agg { queue = []; total = 0; closed = true }
unfolding on_stop flush_now copy_queue_locked write_queue stream_write clear_queue
failed_stream = refl

rejected : (agg_write no_flush (4 ∷ []) (record agg { closed = true })).0 ≡ (0, some closed_pipe)
unfolding agg_write
rejected = refl

timer_rounds_starve_example :
    ((timer_rounds 1000 (agg, untimed)).0 ≡ agg)
    × ((timer_rounds 1000 (agg, untimed)).1.timer ≡ false)
timer_rounds_starve_example = timer_rounds_starve 1000 agg untimed agg-IsSmall refl

write_between_lost_example :
    let copy = copy_queue_locked agg in
    let b = agg_write no_flush (4 ∷ []) agg in
    let sent = stream_write (join copy) b.1 in
    let c = clear_queue sent.0 sent.1 in
    (b.0 ≡ (1, none)) × (c.out ≡ 9 ∷ 1 ∷ 2 ∷ 3 ∷ []) × (c.queue ≡ [])
write_between_lost_example =
    write_between_lost no_flush (4 ∷ []) agg refl (λ e. omega arith) (λ e. omega arith) refl
      (omega arith)

-- A flush between the first two reads, and one that is under way when the loop ends.
abbrev events : List Event
events = reads (4 ∷ []) ∷ copies ∷ sends ∷ clears ∷ reads (5 ∷ 6 ∷ []) ∷ copies ∷ sends ∷ fails ∷ []
