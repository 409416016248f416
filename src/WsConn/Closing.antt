-- ===== src/WsConn/Closing.antt =====
-- Close: it marks the connection closed before it flushes, and a flush on a closed connection sends
-- nothing.
use pisaller.Base.{
  ℕ, ◌≡◌, ◌≢◌, refl, Bool, true, false, Option, none, some, List, [], if◌then◌else◌, ne→==, Error,
  closed,
}
use pisaller.WsConn.{
  WsConn, flush_locked, ws_write, ws_close, ws_read, signal_dead, or_eof, first_error,
}

abbrev pub or_closed : Option Error → Error
or_closed none = closed
or_closed (some e) = e

-- Closing an open connection with bytes in its queue sends none of them and drops them all; it
-- stops the timer, and the connection is dead of the error that it was closed, unless it already
-- was of another.
pub ws_close_drops :
    (c : WsConn)
    → c.closed_flag ≡ false
    → c.up_size ≢ 0
    → let d = (ws_close c).1 in
      (d.sent ≡ c.sent)
      × (d.up_queue ≡ [])
      × (d.up_size ≡ 0)
      × (d.timer ≡ false)
      × (d.closed_flag ≡ true)
      × (d.dead ≡ true)
      × (d.dead_err ≡ some (or_closed c.dead_err))
unfolding ws_close flush_locked signal_dead
ws_close_drops c h k =
    simp (h, ne→== c.up_size 0 k)
      (refl, refl, refl, refl, refl, refl, kept c.dead_err (or_eof c.close_error))
  where
    kept :
        (o : Option Error) (e : Error) → first_error (first_error o closed) e ≡ some (or_closed o)
    kept none e = refl
    kept (some x) e = refl

if_true {ℓ} : {A : Type ℓ} (b : Bool) (x y : A) → b ≡ true → (if b then x else y) ≡ x
if_true true x y e = refl
if_true false x y e = absurd (cc e)

-- On a closed connection Close, Write and Read answer that it is closed and change nothing.
pub closed_rejects :
    (c : WsConn) (p : List ℕ) (n : ℕ)
    → c.closed_flag ≡ true
    → (ws_close c ≡ (some closed, c))
      × (ws_write p c ≡ ((0, some closed), c))
      × (ws_read n c ≡ (([], some closed), c))
unfolding ws_close ws_write ws_read
closed_rejects c p n h =
    (if_true c.closed_flag _ _ h, if_true c.closed_flag _ _ h, if_true c.closed_flag _ _ h)
