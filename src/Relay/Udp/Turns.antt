-- ===== src/Relay/Udp/Turns.antt =====
-- Turns of the UDP handler of internal/relay/tcp.go in which nothing is sent any more.
use pisaller.Base.{
  ℕ, suc, ◌≤◌, ◌<◌, ◌≡◌, refl, ap, Bool, true, false, ◌||◌, inl, inr, Bool-cases, Option, none,
  some, List, [], ◌∷◌, length, All, ltb, ◌==◌, arith, Error, Result, ok, err,
}
use pisaller.Stream.{Conn}
use pisaller.Protocol.{read_chunk, write_udp_reply}
use pisaller.Protocol.Framing.{chunks_bytes, read_one_chunk}
use pisaller.Protocol.Chunks.{read_chunk_end}
use pisaller.Relay.Udp.{
  UdpAddr, Handled, timeout, datagram, broken, Turn, upward, downward, send_chunk, on_reply,
  take_turn, run_turns,
}

-- How many of the turns are the goroutine's.
abbrev pub ups : List Turn → ℕ
ups [] = 0
ups (upward still outcome ∷ ts) = suc (ups ts)
ups (downward arrival ∷ ts) = ups ts

-- Something fails in a turn: WriteTo, the socket's Read, or the writing of a reply, whose sender's
-- text is too long.
abbrev pub fails_in : Turn → Bool
fails_in (upward still none) = false
fails_in (upward still (some e)) = true
fails_in (downward timeout) = false
fails_in (downward (datagram addr d)) = ltb 65535 (length addr)
fails_in (downward broken) = true

abbrev pub any_fails : List Turn → Bool
any_fails [] = false
any_fails (t ∷ ts) = fails_in t || any_fails ts

abbrev pub with : List (List ℕ × UdpAddr) → Bool → Bool → Conn → Handled
with out ended over c = record {
  sent = out;
  socket_closed = over;
  up_ended = ended;
  returned = over;
  stream = c;
}

-- A turn whose effect is known.
pub turned :
    (addr : UdpAddr) (t : Turn) (ts : List Turn) (h k : Handled)
    → take_turn addr t h ≡ k
    → run_turns addr (t ∷ ts) h ≡ run_turns addr ts k
unfolding run_turns
turned addr t ts h k e = ap (run_turns addr ts) e

-- What was sent, and the goroutine has ended.
abbrev pub HasSent : List (List ℕ × UdpAddr) → Handled → Type 0
HasSent out h = (h.sent ≡ out) × (h.up_ended ≡ true)

-- Behind the end of the goroutine nothing is sent.
pub unsent :
    (addr : UdpAddr) (ts : List Turn) (out : List (List ℕ × UdpAddr)) (over : Bool) (c : Conn)
    → HasSent out (run_turns addr ts (with out true over c))
unfolding run_turns
unsent addr [] out over c = (refl, refl)
unsent addr (upward still o ∷ ts) out over c = unsent addr ts out over c
unsent addr (downward a ∷ ts) out true c = unsent addr ts out true c
unsent addr (downward timeout ∷ ts) out false c = unsent addr ts out true c
unsent addr (downward broken ∷ ts) out false c = unsent addr ts out true c
unsent addr (downward (datagram x d) ∷ ts) out false c =
    replied (write_udp_reply x d c) λ over c₁. unsent addr ts out over c₁
  where
    replied :
        (r : Result (Unit {0}) × Conn)
        → ((over : Bool) (c₁ : Conn) → HasSent out (run_turns addr ts (with out true over c₁)))
        → HasSent out (run_turns addr ts (on_reply r (with out true false c)))
    replied (err e, c₁) later = later true c₁
    replied (ok done_, c₁) later = later false c₁

-- The end of the stream.
pub read_at_end :
    (addr : UdpAddr) (o : Option Error) (c : Conn) (h : Handled)
    → c.input ≡ []
    → send_chunk addr o (read_chunk c) h ≡ record h { up_ended = true; stream = (read_chunk c).1 }
read_at_end addr o c h e = at_end (read_chunk c) (read_chunk_end c e)
  where
    at_end :
        (r : Result (List ℕ) × Conn)
        → r.0 ≡ err c.ending
        → send_chunk addr o r h ≡ record h { up_ended = true; stream = r.1 }
    at_end (err e, c₁) x = refl
    at_end (ok d, c₁) x = absurd (cc x)

-- Nothing is sent behind the handler's return, and enough rounds end the goroutine.
pub unsent_behind_return :
    (addr : UdpAddr) (ts : List Turn) (out : List (List ℕ × UdpAddr)) (bs : List (List ℕ))
    (c : Conn)
    → All (λ b. length b ≤ 65535) bs
    → length bs < ups ts
    → c.input ≡ chunks_bytes bs
    → HasSent out (run_turns addr ts (with out false true c))
unsent_behind_return addr [] out bs c h n i = absurd (omega (arith, n))
unsent_behind_return addr (downward a ∷ ts) out bs c h n i =
    rw (turned addr (downward a) ts (with out false true c) (with out false true c) refl)
      (unsent_behind_return addr ts out bs c h n i)
unsent_behind_return addr (upward false o ∷ ts) out bs c h n i =
    rw (turned addr (upward false o) ts (with out false true c) (with out true true c) refl)
      (unsent addr ts out true c)
unsent_behind_return addr (upward true o ∷ ts) out [] c h n i =
    rw
      (turned addr (upward true o) ts (with out false true c) (with out true true (read_chunk c).1)
        (read_at_end addr o c (with out false true c) i))
      (unsent addr ts out true (read_chunk c).1)
unsent_behind_return addr (upward true o ∷ ts) out (b ∷ bs) c (h, hs) n i =
    let rest : Conn = record c { input = chunks_bytes bs } in
    let read = read_one_chunk b (chunks_bytes bs) c h i in
    elim (Bool-cases (length b == 0)) [
      | inl none_sent ↦
          rw
            (turned addr (upward true o) ts (with out false true c) (with out false true rest)
              (rw (read, none_sent) refl))
            (unsent_behind_return addr ts out bs rest hs (omega (arith, n)) refl)
      | inr some_bytes ↦
          rw
            (turned addr (upward true o) ts (with out false true c) (with out true true rest)
              (rw (read, some_bytes) refl))
            (unsent addr ts out true rest)
    ]
