-- ===== src/WsConn/Deadlines.antt =====
-- The deadlines, addresses and getters of WSNetConn in internal/transport/wsconn.go. What the
-- WebSocket answers to a deadline, and the addresses of the connection under it, are parts of the
-- state.
use pisaller.Base.{
  ℕ, ◌≡◌, refl, Bool, true, false, Option, Option-cases, none, some, List, replicate, if◌then◌else◌,
  Error, closed, Bool-cases, inl, inr, arith,
}
use pisaller.WsConn.{WsConn, ws_close, flush_locked, signal_dead}

pub record Timed : Type 0 where
  pub conn : WsConn
  -- A deadline is a number, and 0 for none.
  pub read_deadline : ℕ
  pub write_deadline : ℕ
  pub read_refused : Option Error
  pub write_refused : Option Error

abbrev pub set_ws_read : ℕ → Timed → Option Error × Timed
set_ws_read t c = elim c.read_refused [
  | none ↦ (none, record c { read_deadline = t })
  | some e ↦ (some e, c)
]

abbrev pub set_ws_write : ℕ → Timed → Option Error × Timed
set_ws_write t c = elim c.write_refused [
  | none ↦ (none, record c { write_deadline = t })
  | some e ↦ (some e, c)
]

-- `if err != nil { return err }` before the next call.
abbrev pub and_then : Option Error × Timed → (Timed → Option Error × Timed) → Option Error × Timed
and_then (some e, c) next = (some e, c)
and_then (none, c) next = next c

abbrev pub is_closed : Timed → Bool
is_closed c = c.conn.closed_flag

unfoldable pub set_deadline : ℕ → Timed → Option Error × Timed
set_deadline t c =
    if is_closed c then (some closed, c) else and_then (set_ws_read t c) (λ d. set_ws_write t d)

unfoldable pub set_read_deadline : ℕ → Timed → Option Error × Timed
set_read_deadline t c = if is_closed c then (some closed, c) else set_ws_read t c

unfoldable pub set_write_deadline : ℕ → Timed → Option Error × Timed
set_write_deadline t c = if is_closed c then (some closed, c) else set_ws_write t c

-- LocalAddr and RemoteAddr: that of the connection under the WebSocket, or 0.0.0.0 with the port 0.
abbrev pub address_of : Option (List ℕ × ℕ) → List ℕ × ℕ
address_of none = (replicate 4 0, 0)
address_of (some addr) = addr

ws_close-closed_flag : (c : WsConn) → (ws_close c).1.closed_flag ≡ true
unfolding ws_close flush_locked signal_dead
ws_close-closed_flag c = ground arith

set_deadline_open :
    (t : ℕ) (c : Timed)
    → c.conn.closed_flag ≡ false
    → set_deadline t c ≡ and_then (set_read_deadline t c) (set_write_deadline t)
unfolding set_deadline set_read_deadline set_write_deadline
set_deadline_open t c h = elim (Option-cases c.read_refused) [
  | inl e ↦ rw (h, e) refl
  | inr (x, e) ↦ rw (h, e) refl
]

-- SetDeadline is SetReadDeadline and then, unless that fails, SetWriteDeadline, on an open
-- connection and on a closed one; and behind Close all three return net.ErrClosed and set nothing.
pub set_deadline-both :
    (t : ℕ) (c : Timed)
    → let d : Timed = record c { conn = (ws_close c.conn).1 } in
      (set_deadline t c ≡ and_then (set_read_deadline t c) (set_write_deadline t))
      × (set_deadline t d ≡ (some closed, d))
      × (set_read_deadline t d ≡ (some closed, d))
      × (set_write_deadline t d ≡ (some closed, d))
unfolding set_deadline set_read_deadline set_write_deadline
set_deadline-both t c =
    let shut = ws_close-closed_flag c.conn in
    let both : set_deadline t c ≡ and_then (set_read_deadline t c) (set_write_deadline t) =
      elim (Bool-cases c.conn.closed_flag) [
        | inl h ↦ rw h refl
        | inr h ↦ set_deadline_open t c h
      ] in
    (both, rw shut refl, rw shut refl, rw shut refl)
