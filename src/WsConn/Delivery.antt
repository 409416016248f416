-- ===== src/WsConn/Delivery.antt =====
-- What reaches the peer while the WebSocket takes every message: the bytes of the writes, in order.
use pisaller.Base.{
  join-snoc, ℕ, ◌+◌, ◌≡◌, refl, sym, ap, ◌∙◌, false, Option, none, some, List, [], ◌∷◌, ◌++◌,
  length, join, replicate, arith, ltb, leb, ◌==◌, if_split, ==→eq, append-nil, append_assoc,
  take-append_self, Error, length-append,
}
use pisaller.WsConn.{
  WsConn, Outcome, send_by, write_direct, flush_locked, after_flush, enqueue, write_overflow,
  write_open, ws_write, timer_fires, gather,
}
use pisaller.WsConn.Queue.{
  IsGathered, ws_write-IsGathered, timer_fires-IsGathered, flush_locked-size,
}

-- The connection is open, and no message is going to fail.
pub record IsHealthy (c : WsConn) : Type 0 where
  pub still_open : c.closed_flag ≡ false
  pub no_failure : c.outcomes ≡ []

-- What the peer has received, and what is still queued.
abbrev pub accounted : WsConn → List ℕ
accounted c = join c.sent ++ join c.up_queue

-- A result without an error that adds `p` to what is accounted for.
abbrev pub Adds : WsConn → List ℕ → ℕ → (ℕ × Option Error) × WsConn → Type 0
Adds c p n r =
    (r.0 ≡ (n, none))
    × IsHealthy r.1
    × (accounted r.1 ≡ accounted c ++ p)
    × (length (join r.1.up_queue) ≡ r.1.up_size)

abbrev Keeps : WsConn → Option Error × WsConn → Type 0
Keeps c r =
    (r.0 ≡ none)
    × IsHealthy r.1
    × (accounted r.1 ≡ accounted c)
    × (length (join r.1.up_queue) ≡ r.1.up_size)

send_healthy :
    (os : List Outcome) (p : List ℕ) (c : WsConn)
    → os ≡ []
    → send_by os p c ≡ ((length p, none), record c { sent = c.sent ++ (p ∷ []) })
send_healthy os p c h = rw h

gather_exact : (n : ℕ) (q : List (List ℕ)) → length (join q) ≡ n → gather n q ≡ join q
gather_exact n q h = rw (← h) (take-append_self (join q) (replicate (length (join q)) 0))

flush_locked-Keeps :
    (c : WsConn) → IsHealthy c → length (join c.up_queue) ≡ c.up_size → Keeps c (flush_locked c)
unfolding flush_locked write_direct
flush_locked-Keeps c v h =
    if_split (Keeps c) (c.up_size == 0) (λ nothing. (refl, v, refl, h))
      λ bytes.
        if_split (Keeps c) c.closed_flag (λ shut. absurd (cc (v.still_open)))
          λ open_. rw (send_healthy c.outcomes _ emptied v.no_failure) (refl, after, moved, refl)
  where
    emptied : WsConn
    emptied = record c { timer = false; up_queue = []; up_size = 0 }

    sent_all : WsConn
    sent_all = record emptied { sent = c.sent ++ (gather c.up_size c.up_queue ∷ []) }

    after : IsHealthy sent_all
    after = record { still_open = v.still_open; no_failure = v.no_failure }

    moved : accounted sent_all ≡ accounted c
    moved =
        append-nil (join sent_all.sent)
        ∙ join-snoc c.sent (gather c.up_size c.up_queue)
        ∙ ap (λ t. join c.sent ++ t) (gather_exact c.up_size c.up_queue h)

after_flush-Adds :
    (c : WsConn) (p : List ℕ) (n : ℕ) (r : Option Error × WsConn)
    (f : WsConn → (ℕ × Option Error) × WsConn)
    → r.0 ≡ none
    → Adds c p n (f r.1)
    → Adds c p n (after_flush r f)
after_flush-Adds c p n (none, d) f e h = h
after_flush-Adds c p n (some x, d) f e h = absurd (cc e)

enqueue-Adds :
    (p : List ℕ) (c : WsConn)
    → IsHealthy c
    → length (join c.up_queue) ≡ c.up_size
    → Adds c p (length p) (enqueue p c)
unfolding enqueue
enqueue-Adds p c v h =
    if_split (Adds c p (length p)) (leb c.up_pack (c.up_size + length p))
      (λ full.
        let (e, w, a, s) =
          flush_locked-Keeps queued
            (record { still_open = v.still_open; no_failure = v.no_failure }) size in
        after_flush-Adds c p (length p) (flush_locked queued) _ e (refl, w, a ∙ joined, s))
      λ room. (refl, record { still_open = v.still_open; no_failure = v.no_failure }, joined, size)
  where
    queued : WsConn
    queued = record c { up_queue = c.up_queue ++ (p ∷ []); up_size = c.up_size + length p }

    joined : accounted queued ≡ accounted c ++ p
    joined = rw (join-snoc c.up_queue p) (sym (append_assoc (join c.sent) (join c.up_queue) p))

    size : length (join queued.up_queue) ≡ queued.up_size
    size = omega (arith, h, ap length (join-snoc c.up_queue p), length-append (join c.up_queue) p)

no_bytes : (xs : List ℕ) → length xs ≡ 0 → xs ≡ []
no_bytes [] e = refl
no_bytes (x ∷ xs) e = absurd (omega arith)

-- A message of its own, behind an empty queue.
write_direct-Adds :
    (p : List ℕ) (c : WsConn)
    → IsHealthy c
    → length (join c.up_queue) ≡ c.up_size
    → c.up_size ≡ 0
    → Adds c p (length p) (write_direct p c)
unfolding write_direct
write_direct-Adds p c v h z =
    rw (send_healthy c.outcomes p c v.no_failure)
      (refl, record { still_open = v.still_open; no_failure = v.no_failure }, moved, h)
  where
    none_left : join c.up_queue ≡ []
    none_left = no_bytes (join c.up_queue) (h ∙ z)

    moved : join (c.sent ++ (p ∷ [])) ++ join c.up_queue ≡ accounted c ++ p
    moved = simp (none_left, append-nil, join-snoc c.sent p)

-- What a flush keeps is as good a start.
Adds-onto :
    (c d : WsConn) (p : List ℕ) (n : ℕ) (r : (ℕ × Option Error) × WsConn)
    → accounted d ≡ accounted c
    → Adds d p n r
    → Adds c p n r
Adds-onto c d p n r a (x, y, z, t) = (x, y, z ∙ ap (λ b. b ++ p) a, t)

write_overflow-Adds :
    (p : List ℕ) (c : WsConn)
    → IsHealthy c
    → length (join c.up_queue) ≡ c.up_size
    → c.up_size ≡ 0
    → Adds c p (length p) (write_overflow p c)
unfolding write_overflow
write_overflow-Adds p c v h z =
    if_split (Adds c p (length p)) (leb c.up_pack (length p)) (λ large. write_direct-Adds p c v h z)
      λ small.
        if_split (Adds c p (length p)) (ltb c.max_queue (length p))
          (λ large. write_direct-Adds p c v h z) λ fits. enqueue-Adds p c v h

write_open-Adds :
    (p : List ℕ) (c : WsConn)
    → IsHealthy c
    → length (join c.up_queue) ≡ c.up_size
    → Adds c p (length p) (write_open p c)
unfolding write_open
write_open-Adds p c v h =
    let (e, w, a, s) = flush_locked-Keeps c v h in
    let d = (flush_locked c).1 in
    if_split (Adds c p (length p)) (length p == 0)
      (λ nothing.
        let z = ==→eq (length p) 0 nothing in
        (
          ap (λ (n : ℕ). (n, none)) (sym z),
          v,
          rw (no_bytes p z) (sym (append-nil (accounted c))),
          h,
        ))
      λ bytes.
        if_split (Adds c p (length p)) (ltb c.max_queue (c.up_size + length p))
          (λ over. after_flush-Adds c p (length p) (flush_locked c) (write_overflow p) e (
            Adds-onto c d p (length p) (write_overflow p d) a
              (write_overflow-Adds p d w s (flush_locked-size c))))
          λ fits. enqueue-Adds p c v h

-- Write returns the length of `p` and no error.
pub ws_write-Adds :
    (p : List ℕ) (c : WsConn)
    → IsHealthy c
    → length (join c.up_queue) ≡ c.up_size
    → Adds c p (length p) (ws_write p c)
unfolding ws_write
ws_write-Adds p c v h =
    if_split (Adds c p (length p)) c.closed_flag (λ shut. absurd (cc (v.still_open)))
      λ open_. write_open-Adds p c v h

-- What happens to the writing side: a call of Write, or the timer.
pub data Event : Type 0 where
  writes : List ℕ → Event
  fires : Event

unfoldable pub run : List Event → WsConn → WsConn
run [] c = c
run (writes p ∷ es) c = run es (ws_write p c).1
run (fires ∷ es) c = run es (timer_fires c)

abbrev pub written : List Event → List ℕ
written [] = []
written (writes p ∷ es) = p ++ written es
written (fires ∷ es) = written es

-- Through any writes and timers on an open connection whose queue is counted right and whose
-- messages all go out, the peer's bytes followed by the queued ones are those from before and then
-- the written ones, in order: nothing is lost, doubled or moved.
pub run-accounted :
    (es : List Event) (c : WsConn)
    → IsHealthy c
    → length (join c.up_queue) ≡ c.up_size
    → accounted (run es c) ≡ accounted c ++ written es
unfolding run timer_fires
run-accounted [] c v h = sym (append-nil (accounted c))
run-accounted (writes p ∷ es) c v h =
    let (_, w, a, s) = ws_write-Adds p c v h in
    run-accounted es (ws_write p c).1 w s
    ∙ ap (λ b. b ++ written es) a
    ∙ append_assoc (accounted c) p (written es)
run-accounted (fires ∷ es) c v h =
    let (_, w, a, s) = flush_locked-Keeps c v h in
    run-accounted es (flush_locked c).1 w s ∙ ap (λ b. b ++ written es) a

-- Any writes and timers, on messages that may fail, keep the queue counted, within its limits and
-- under a timer.
pub run-IsGathered : (es : List Event) (c : WsConn) → IsGathered c → IsGathered (run es c)
unfolding run
run-IsGathered [] c g = g
run-IsGathered (writes p ∷ es) c g = run-IsGathered es (ws_write p c).1 (ws_write-IsGathered p c g)
run-IsGathered (fires ∷ es) c g = run-IsGathered es (timer_fires c) (timer_fires-IsGathered c g)
