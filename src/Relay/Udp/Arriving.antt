-- ===== src/Relay/Udp/Arriving.antt =====
-- Which datagrams the UDP handler of internal/relay/tcp.go sends.
use pisaller.Base.{
  ℕ, ◌≤◌, ◌<◌, ◌≡◌, refl, ◌∙◌, ap, Bool, true, false, ◌||◌, ◌⊎◌, inl, inr, Bool-cases, Option, none,
  some, List, [], ◌∷◌, ◌++◌, append_assoc, length, map, All, ltb, ltb→le, ◌==◌, arith, Error, ok,
}
use pisaller.Base.Int.{ℤ}
use pisaller.Stream.{Conn}
use pisaller.Protocol.{write_smux_open_header, read_chunk}
use pisaller.Protocol.Framing.{chunks_bytes, read_one_chunk}
use pisaller.Protocol.Udp.{written_reply, oversized_reply, reply_bytes}
use pisaller.Dial.{Resolver}
use pisaller.Relay.{udp, handle_smux_stream, resolve_udp_addr}
use pisaller.Relay.Streams.{handle_smux_stream-open}
use pisaller.Relay.Datagrams.{nonempty}
use pisaller.Relay.Udp.{
  UdpAddr, write_to, Handled, timeout, datagram, broken, Turn, upward, downward, run_turns,
  handle_udp_stream,
}
use pisaller.Relay.Udp.Turns.{
  ups, fails_in, any_fails, with, turned, HasSent, unsent, read_at_end, unsent_behind_return,
}

-- The datagrams of chunks are those sent and a rest, which is empty unless something failed; and
-- the goroutine has ended.
abbrev Accounts : UdpAddr → Bool → List (List ℕ × UdpAddr) → List (List ℕ) → Handled → Type 0
Accounts addr failed out bs h =
    ((rest : List (List ℕ)) × (h.sent ++ map (write_to addr) rest
        ≡ out ++ map (write_to addr) (nonempty bs))
      × ((failed ≡ true) ⊎ (rest ≡ [])))
    × (h.up_ended ≡ true)

-- Nothing more is sent, behind a failure or the last chunk.
HasSent-Accounts :
    (addr : UdpAddr) (failed : Bool) (out : List (List ℕ × UdpAddr)) (bs : List (List ℕ))
    (h : Handled)
    → (failed ≡ true) ⊎ (nonempty bs ≡ [])
    → HasSent out h
    → Accounts addr failed out bs h
HasSent-Accounts addr failed out bs h why (e, ended) =
    ((nonempty bs, ap (λ x. x ++ map (write_to addr) (nonempty bs)) e, why), ended)

-- A failure in a further turn.
Accounts_or :
    (addr : UdpAddr) (first failed : Bool) (out : List (List ℕ × UdpAddr)) (bs : List (List ℕ))
    (h : Handled)
    → Accounts addr failed out bs h
    → Accounts addr (first || failed) out bs h
Accounts_or addr true failed out bs h ((rest, e, why), ended) = ((rest, e, inl refl), ended)
Accounts_or addr false failed out bs h a = a

-- One more datagram.
Accounts_one :
    (addr : UdpAddr) (failed : Bool) (out : List (List ℕ × UdpAddr)) (b : List ℕ)
    (bs : List (List ℕ)) (h : Handled)
    → (length b == 0) ≡ false
    → Accounts addr failed (out ++ (write_to addr b ∷ [])) bs h
    → Accounts addr failed out (b ∷ bs) h
Accounts_one addr failed out b bs h some_bytes ((rest, e, why), ended) = rw some_bytes (
  (rest, e ∙ append_assoc out (write_to addr b ∷ []) (map (write_to addr) (nonempty bs)), why),
  ended,
)

-- An empty chunk.
Accounts_empty :
    (addr : UdpAddr) (failed : Bool) (out : List (List ℕ × UdpAddr)) (b : List ℕ)
    (bs : List (List ℕ)) (h : Handled)
    → (length b == 0) ≡ true
    → Accounts addr failed out bs h
    → Accounts addr failed out (b ∷ bs) h
Accounts_empty addr failed out b bs h none_sent a = rw none_sent a

-- A round with a nonempty chunk on an open socket.
sending :
    (addr : UdpAddr) (still : Bool) (o : Option Error) (ts : List Turn)
    (out : List (List ℕ × UdpAddr)) (b : List ℕ) (bs : List (List ℕ)) (c : Conn)
    → (length b == 0) ≡ false
    → read_chunk c ≡ (ok b, record c { input = chunks_bytes bs })
    → Accounts addr (any_fails ts) (out ++ (write_to addr b ∷ [])) bs (
        run_turns addr ts
          (with (out ++ (write_to addr b ∷ [])) false false (record c { input = chunks_bytes bs })))
    → Accounts addr
        (any_fails (upward still o ∷ ts))
        out
        (b ∷ bs)
        (run_turns addr (upward still o ∷ ts) (with out false false c))
sending addr still none ts out b bs c some_bytes read later =
    rw
      (turned addr (upward still none) ts (with out false false c)
        (with (out ++ (write_to addr b ∷ [])) false false (record c { input = chunks_bytes bs }))
        (rw (read, some_bytes) refl))
      (Accounts_one addr (any_fails ts) out b bs
        (run_turns addr ts
          (with (out ++ (write_to addr b ∷ [])) false false (record c { input = chunks_bytes bs })))
        some_bytes later)
sending addr still (some e) ts out b bs c some_bytes read later =
    let rest : Conn = record c { input = chunks_bytes bs } in
    rw
      (turned addr (upward still (some e)) ts (with out false false c) (with out true false rest)
        (rw (read, some_bytes) refl))
      (HasSent-Accounts addr true out (b ∷ bs) (run_turns addr ts (with out true false rest))
        (inl refl) (unsent addr ts out false rest))

arriving :
    (addr : UdpAddr) (ts : List Turn) (out : List (List ℕ × UdpAddr)) (bs : List (List ℕ))
    (c : Conn)
    → All (λ b. length b ≤ 65535) bs
    → length bs < ups ts
    → c.faults ≡ []
    → c.input ≡ chunks_bytes bs
    → Accounts addr (any_fails ts) out bs (run_turns addr ts (with out false false c))
arriving addr [] out bs c h n f i = absurd (omega (arith, n))
arriving addr (downward timeout ∷ ts) out bs c h n f i =
    rw (turned addr (downward timeout) ts (with out false false c) (with out false false c) refl)
      (arriving addr ts out bs c h n f i)
arriving addr (downward broken ∷ ts) out bs c h n f i =
    rw (turned addr (downward broken) ts (with out false false c) (with out false true c) refl) (
      HasSent-Accounts addr true out bs (run_turns addr ts (with out false true c)) (inl refl)
        (unsent_behind_return addr ts out bs c h n i))
arriving addr (downward (datagram x d) ∷ ts) out bs c h n f i =
    elim (Bool-cases (ltb 65535 (length x))) [
      | inl long ↦
          rw
            (
              turned addr (downward (datagram x d)) ts (with out false false c)
                  (with out false true c) (rw (oversized_reply x d c long) refl),
              long,
            )
            (HasSent-Accounts addr true out bs (run_turns addr ts (with out false true c))
              (inl refl) (unsent_behind_return addr ts out bs c h n i))
      | inr fits ↦
          let after : Conn = record c { output = c.output ++ reply_bytes x d } in
          rw
            (
              turned addr (downward (datagram x d)) ts (with out false false c)
                  (with out false false after)
                  (rw (written_reply x d c (ltb→le 65535 (length x) fits) f) refl),
              fits,
            )
            (arriving addr ts out bs after h n f i)
    ]
arriving addr (upward still o ∷ ts) out [] c h n f i =
    rw
      (turned addr (upward still o) ts (with out false false c)
        (with out true false (read_chunk c).1) (read_at_end addr o c (with out false false c) i))
      (HasSent-Accounts addr _ out [] (run_turns addr ts (with out true false (read_chunk c).1))
        (inr refl) (unsent addr ts out false (read_chunk c).1))
arriving addr (upward still o ∷ ts) out (b ∷ bs) c (h, hs) n f i =
    let rest : Conn = record c { input = chunks_bytes bs } in
    let read = read_one_chunk b (chunks_bytes bs) c h i in
    elim (Bool-cases (length b == 0)) [
      | inl none_sent ↦
          rw
            (turned addr (upward still o) ts (with out false false c) (with out false false rest)
              (rw (read, none_sent) refl))
            (Accounts_empty addr _ out b bs (run_turns addr ts (with out false false rest))
              none_sent
              (Accounts_or addr (fails_in (upward still o)) (any_fails ts) out bs
                (run_turns addr ts (with out false false rest))
                (arriving addr ts out bs rest hs (omega (arith, n)) f refl)))
      | inr some_bytes ↦
          sending addr still o ts out b bs c some_bytes read
            (arriving addr ts (out ++ (write_to addr b ∷ [])) bs rest hs (omega (arith, n)) f refl)
    ]

-- What the client sends behind the header of a UDP stream, with a target and chunks of at most
-- 65535 bytes, the relay hands to the UDP handler. Where the target resolves to an address, the
-- stream takes what is written and the socket can be made, then in whatever order the goroutine
-- that reads the stream and the handler's loop take their turns, with more rounds of the goroutine
-- than chunks: the goroutine ends, and each nonempty chunk goes to the address as one datagram, in
-- order, all of them or, if a WriteTo, a Read of the socket or a reply to a sender with a too long
-- text fails in one of the turns, a first part of them.
pub datagrams_arrive :
    (net : Resolver) (atoi : List ℕ → Option ℤ) (ts : List Turn) (strategy : ℕ) (target : List ℕ)
    (bs : List (List ℕ)) (addr : UdpAddr) (w s : Conn)
    → length target ≤ 65535
    → All (λ b. length b ≤ 65535) bs
    → length bs < ups ts
    → resolve_udp_addr net atoi target strategy ≡ ok addr
    → w.faults ≡ []
    → w.output ≡ []
    → s.faults ≡ []
    → s.input ≡ (write_smux_open_header 3 strategy target w).1.output ++ chunks_bytes bs
    → let stream : Conn = record s { input = chunks_bytes bs } in
      let handled = handle_udp_stream net atoi true ts strategy target stream in
      (handle_smux_stream s ≡ (ok (udp strategy target), stream))
      × ((rest : List (List ℕ)) × (handled.sent ++ map (write_to addr) rest
            ≡ map (write_to addr) (nonempty bs))
          × ((any_fails ts ≡ true) ⊎ (rest ≡ [])))
      × (handled.up_ended ≡ true)
unfolding handle_udp_stream
datagrams_arrive net atoi ts strategy target bs addr w s t h n a f o g i =
    let stream : Conn = record s { input = chunks_bytes bs } in
    let r : Conn = record s {
      input = (write_smux_open_header 2 strategy target w).1.output ++ chunks_bytes bs;
    } in
    let (sent, ended) = arriving addr ts [] bs stream h n g refl in
    (
      (handle_smux_stream-open strategy target (chunks_bytes bs) w r s t f o refl i).1,
      rw a sent,
      rw a ended,
    )
