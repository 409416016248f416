-- ===== src/DnAgg/Wakeup.antt =====
-- Close and the wait of the flusher in internal/transport/dnagg.go, on an empty queue: the flusher
-- tests `closed` and waits under the lock, Close sets it and signals without the lock.
use pisaller.Base.{◌≡◌, refl, Bool, true, false}

-- Where the flusher stands: at the test; between the test and the wait, with the lock; asleep;
-- returned.
pub data Flushing : Type 0 where
  tests : Flushing
  drowsy : Flushing
  asleep : Flushing
  returned : Flushing

-- Where Close stands: before it; behind the swap of `closed`; at wg.Wait; returned.
pub data Closing : Type 0 where
  ready : Closing
  swapped : Closing
  joins : Closing
  done : Closing

pub record Both : Type 0 where
  pub flushing : Flushing
  pub closing : Closing
  pub closed : Bool

abbrev pub start : Both
start = record { flushing = tests; closing = ready; closed = false }

-- cond.Signal wakes the flusher if it waits.
abbrev pub woken : Flushing → Flushing
woken tests = tests
woken drowsy = drowsy
woken asleep = tests
woken returned = returned

pub data Step (s : Both) : Both → Type 0 where
  tests_open : s.flushing ≡ tests → s.closed ≡ false → Step s (record s { flushing = drowsy })
  tests_closed : s.flushing ≡ tests → s.closed ≡ true → Step s (record s { flushing = returned })
  waits : s.flushing ≡ drowsy → Step s (record s { flushing = asleep })
  swaps : s.closing ≡ ready → Step s (record s { closing = swapped; closed = true })
  signals : s.closing ≡ swapped → Step s (record s { closing = joins; flushing = woken s.flushing })
  returns : s.closing ≡ joins → s.flushing ≡ returned → Step s (record s { closing = done })

pub data Reach : Both → Type 0 where
  here : Reach start
  next : {s t : Both} → Reach s → Step s t → Reach t

-- Close can hang: there is a run in which the signal comes between the flusher's test and its wait,
-- and behind which the aggregator is closed, the flusher sleeps, Close waits for it, and neither
-- can do another step.
pub close_can_hang :
    (s : Both) × Reach s
    × (s.closed ≡ true)
    × (s.flushing ≡ asleep)
    × (s.closing ≡ joins)
    × ((t : Both) → ¬ Step s t)
close_can_hang = (
  record { flushing = asleep; closing = joins; closed = true },
  next (next (next (next here (tests_open refl refl)) (swaps refl)) (signals refl)) (waits refl),
  refl,
  refl,
  refl,
  stuck,
)
  where
    stuck : (t : Both) → ¬ Step (record { flushing = asleep; closing = joins; closed = true }) t
    stuck t (tests_open e c) = absurd (cc e)
    stuck t (tests_closed e c) = absurd (cc e)
    stuck t (waits e) = absurd (cc e)
    stuck t (swaps e) = absurd (cc e)
    stuck t (signals e) = absurd (cc e)
    stuck t (returns e f) = absurd (cc f)
