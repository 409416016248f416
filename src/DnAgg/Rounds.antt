-- ===== src/DnAgg/Rounds.antt =====
-- The flusher's timer.
use pisaller.Base.{
  ℕ, zero, suc, ◌+◌, ◌-◌, ◌≤◌, ◌<◌, ◌≡◌, ◌≢◌, refl, false, length, arith, lt→leb, le→ltb, lt→ltb,
  ne→==,
}
use pisaller.DnAgg.{Aggregator, Flusher, poll, on_timer, low_water}

-- One turn of the flusher in which nothing comes but the timer.
pub timer_round : Aggregator × Flusher → Aggregator × Flusher
timer_round (a, f) = let (next, b, g) = poll a f in on_timer b g

pub timer_rounds : ℕ → Aggregator × Flusher → Aggregator × Flusher
timer_rounds zero s = s
timer_rounds (suc n) s = timer_rounds n (timer_round s)

-- Bytes that are queued, too few to be due.
pub record IsSmall (a : Aggregator) : Type 0 where
  pub some_chunks : length a.queue ≢ 0
  pub few_chunks : length a.queue < a.dn_qr
  pub several : 2 ≤ a.dn_qr
  pub few_bytes : a.total < low_water a
  pub not_tail : a.total + a.dn_tail ≤ a.dn_pack
  pub has_tail : 0 < a.dn_tail
  pub still_open : a.closed ≡ false

small_round :
    (a : Aggregator) (f : Flusher)
    → IsSmall a
    → f.timer ≡ false
    → timer_round (a, f) ≡ (a, record { timer = false; qr = 1 })
unfolding timer_round poll on_timer
small_round a f s t = simp (
  ne→== (length a.queue) 0 s.some_chunks,
  lt→leb a.dn_pack a.total (omega arith),
  lt→leb a.dn_qr (length a.queue) s.few_chunks,
  le→ltb (a.dn_pack - a.total) a.dn_tail (omega arith),
  t,
  s.still_open,
  lt→leb (low_water a) a.total s.few_bytes,
  lt→leb a.dn_qr 0 (omega arith),
  lt→ltb 1 a.dn_qr s.several,
)

-- The bug of the timer: each new timer starts the count `qr` again, so bytes that are queued, but
-- are under the low-water mark, and are not due by their size, their chunks or the tail, stay
-- queued however often the timer fires, if two rounds at least are asked for.
pub timer_rounds_starve :
    (n : ℕ) (a : Aggregator) (f : Flusher)
    → IsSmall a
    → f.timer ≡ false
    → ((timer_rounds n (a, f)).0 ≡ a) × ((timer_rounds n (a, f)).1.timer ≡ false)
unfolding timer_rounds
timer_rounds_starve zero a f s t = (refl, t)
timer_rounds_starve (suc n) a f s t =
    rw (small_round a f s t, timer_rounds)
      (timer_rounds_starve n a (record { timer = false; qr = 1 }) s refl)
