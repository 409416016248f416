-- ===== src/WsConn/Queue.antt =====
-- The queue of writes: what holds of it after every call.
use pisaller.Base.{
  ℕ, zero, suc, ◌+◌, ◌*◌, ◌≤◌, ◌<◌, ◌≡◌, refl, ap, ◌⊎◌, inl, inr, true, false, Option, none, some,
  List, [], ◌∷◌, ◌++◌, length, length-append, join, join-snoc, arith, ltb, leb, ◌==◌, Bool-cases,
  if_split, ==→eq, ltb→le, leb→lt, leb→le, lt→ltb, Error,
}
use pisaller.Base.Int.{ℤ, pos, negsuc}
use pisaller.WsConn.{
  or_default, WsConn, Socket, Outcome, delivered, no_writer, write_fails, close_fails,
  new_ws_net_conn, send_by, write_direct, flush_locked, after_flush, enqueue, write_overflow,
  write_open, ws_write, timer_fires, signal_dead, gather,
}

-- The size counts the queued bytes, which stay under both limits, and queued bytes have a timer.
pub record IsGathered (c : WsConn) : Type 0 where
  pub sized : c.up_size ≡ length (join c.up_queue)
  pub below : c.up_size < c.up_pack
  pub bounded : c.up_size ≤ c.max_queue
  pub armed : (c.up_size ≡ 0) ⊎ (c.timer ≡ true)
  pub ticking : 0 < c.chunk_ms

or_default_pos : (x : ℤ) (d : ℕ) → 0 < d → 0 < or_default x d
or_default_pos (pos zero) d h = h
or_default_pos (pos (suc n)) d h = omega arith
or_default_pos (negsuc n) d h = h

-- Whatever the configured limits are, a new connection starts so.
pub new_ws_net_conn-IsGathered :
    (ws : Socket) (up_pack chunk_ms max_queue : ℤ)
    → IsGathered (new_ws_net_conn ws up_pack chunk_ms max_queue)
unfolding new_ws_net_conn
new_ws_net_conn-IsGathered ws up_pack chunk_ms max_queue = record {
  sized = refl;
  below = or_default_pos up_pack (20 * 1024) (omega arith);
  bounded = omega arith;
  armed = inl refl;
  ticking = or_default_pos chunk_ms 20 (omega arith);
}

-- A message, however it turns out, leaves the queue alone.
send_by-IsGathered :
    (os : List Outcome) (p : List ℕ) (c : WsConn) → IsGathered c → IsGathered (send_by os p c).1
unfolding signal_dead
send_by-IsGathered [] p c g = record {
  sized = g.sized;
  below = g.below;
  bounded = g.bounded;
  armed = g.armed;
  ticking = g.ticking;
}
send_by-IsGathered (delivered ∷ os) p c g = ground arith
send_by-IsGathered (no_writer e ∷ os) p c g = ground arith
send_by-IsGathered (write_fails n e ∷ os) p c g = ground arith
send_by-IsGathered (close_fails e ∷ os) p c g = ground arith

-- The queue after a flush that had something to send.
abbrev emptied : WsConn → WsConn
emptied c = record c { timer = false; up_queue = []; up_size = 0 }

emptied-IsGathered : (c : WsConn) → 0 < c.up_pack → 0 < c.chunk_ms → IsGathered (emptied c)
emptied-IsGathered c h k = record {
  sized = refl;
  below = h;
  bounded = omega arith;
  armed = inl refl;
  ticking = k;
}

abbrev Flushed : Option Error × WsConn → Type 0
Flushed r = IsGathered r.1

abbrev IsDrained : Option Error × WsConn → Type 0
IsDrained r = r.1.up_size ≡ 0

abbrev Written : (ℕ × Option Error) × WsConn → Type 0
Written r = IsGathered r.1

flush_locked-IsGathered :
    (c : WsConn)
    → 0 < c.up_pack
    → 0 < c.chunk_ms
    → (c.up_size ≡ 0 → IsGathered c)
    → IsGathered (flush_locked c).1
unfolding flush_locked write_direct
flush_locked-IsGathered c h k g =
    if_split Flushed (c.up_size == 0) (λ nothing. g (==→eq c.up_size 0 nothing))
      λ bytes.
        if_split Flushed c.closed_flag (λ shut. emptied-IsGathered c h k)
          λ open_.
            send_by-IsGathered c.outcomes (gather c.up_size c.up_queue) (emptied c)
              (emptied-IsGathered c h k)

send_by-size :
    (os : List Outcome) (p : List ℕ) (c : WsConn)
    → ((send_by os p c).1.up_size ≡ c.up_size) × ((send_by os p c).1.up_queue ≡ c.up_queue)
unfolding signal_dead
send_by-size [] p c = (refl, refl)
send_by-size (delivered ∷ os) p c = (refl, refl)
send_by-size (no_writer e ∷ os) p c = (refl, refl)
send_by-size (write_fails n e ∷ os) p c = (refl, refl)
send_by-size (close_fails e ∷ os) p c = (refl, refl)

-- A flush leaves nothing queued.
pub flush_locked-size : (c : WsConn) → (flush_locked c).1.up_size ≡ 0
unfolding flush_locked write_direct
flush_locked-size c =
    if_split IsDrained (c.up_size == 0) (λ nothing. ==→eq c.up_size 0 nothing)
      λ bytes.
        if_split IsDrained c.closed_flag (λ shut. refl)
          λ open_. (send_by-size c.outcomes (gather c.up_size c.up_queue) (emptied c)).0

after_flush-IsGathered :
    (r : Option Error × WsConn) (f : WsConn → (ℕ × Option Error) × WsConn)
    → IsGathered r.1
    → IsGathered (f r.1).1
    → IsGathered (after_flush r f).1
after_flush-IsGathered (none, c) f h k = k
after_flush-IsGathered (some e, c) f h k = h

enqueue-IsGathered :
    (p : List ℕ) (c : WsConn)
    → IsGathered c
    → c.up_size + length p ≤ c.max_queue
    → IsGathered (enqueue p c).1
unfolding enqueue
enqueue-IsGathered p c g h =
    let queued : WsConn = record c {
      up_queue = c.up_queue ++ (p ∷ []);
      up_size = c.up_size + length p;
    } in
    let total : queued.up_size ≡ length (join queued.up_queue) =
      omega
        (arith, g.sized, ap length (join-snoc c.up_queue p), length-append (join c.up_queue) p) in
    elim (Bool-cases (leb c.up_pack (c.up_size + length p))) [
      | inl full ↦
          let flushed =
            flush_locked-IsGathered queued (omega (arith, g.below)) g.ticking
              (λ z. absurd (omega (arith, leb→le _ _ full, g.below, z))) in
          rw full (after_flush-IsGathered (flush_locked queued) _ flushed flushed)
      | inr room ↦ rw room (
          rw (lt→ltb 0 c.chunk_ms g.ticking) (record {
            sized = total;
            below = leb→lt _ _ room;
            bounded = h;
            armed = inr refl;
            ticking = g.ticking;
          }))
    ]

-- The branches behind the flush of a queue that has no room.
overflow-IsGathered :
    (p : List ℕ) (d : WsConn) → IsGathered d → d.up_size ≡ 0 → IsGathered (write_overflow p d).1
unfolding write_overflow write_direct
overflow-IsGathered p d h z = elim (Bool-cases (leb d.up_pack (length p))) [
  | inl large ↦ rw large (send_by-IsGathered d.outcomes p d h)
  | inr small ↦ rw small (elim (Bool-cases (ltb d.max_queue (length p))) [
    | inl large ↦ rw large (send_by-IsGathered d.outcomes p d h)
    | inr fits ↦ rw fits (enqueue-IsGathered p d h (omega (arith, ltb→le _ _ fits, z)))
  ])
]

write_open-IsGathered : (p : List ℕ) (c : WsConn) → IsGathered c → IsGathered (write_open p c).1
unfolding write_open
write_open-IsGathered p c g =
    let flushed = flush_locked-IsGathered c (omega (arith, g.below)) g.ticking (λ _. g) in
    if_split Written (length p == 0) (λ nothing. g)
      λ bytes.
        if_split Written (ltb c.max_queue (c.up_size + length p))
          (λ over.
            after_flush-IsGathered (flush_locked c) (write_overflow p) flushed
              (overflow-IsGathered p (flush_locked c).1 flushed (flush_locked-size c)))
          λ fits. enqueue-IsGathered p c g (ltb→le _ _ fits)

-- Write keeps the queue so, on every branch and however the messages turn out.
pub ws_write-IsGathered : (p : List ℕ) (c : WsConn) → IsGathered c → IsGathered (ws_write p c).1
unfolding ws_write
ws_write-IsGathered p c g =
    if_split Written c.closed_flag (λ shut. g) λ open_. write_open-IsGathered p c g

-- The timer does, too.
pub timer_fires-IsGathered : (c : WsConn) → IsGathered c → IsGathered (timer_fires c)
unfolding timer_fires
timer_fires-IsGathered c g = flush_locked-IsGathered c (omega (arith, g.below)) g.ticking (λ _. g)
