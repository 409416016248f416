-- ===== src/Relay/Datagrams.antt =====
-- The stream of a UDP handler: which datagrams leave, and that its loop ends.
use pisaller.Base.{
  ℕ, zero, suc, ◌≤◌, ◌<◌, ◌≡◌, refl, Bool, true, Option, none, some, List, [], ◌∷◌, length, All,
  ◌==◌, if◌then◌else◌, if_split, arith, ok, err, Result, Error, Bool-cases, inl, inr,
}
use pisaller.Stream.{Conn}
use pisaller.Protocol.{read_chunk}
use pisaller.Protocol.Framing.{chunks_bytes, read_one_chunk}
use pisaller.Protocol.Chunks.{read_chunk_end, read_chunk-length}
use pisaller.Relay.{on_chunk, deliver, uplink}

-- The chunks that make a datagram.
abbrev pub nonempty : List (List ℕ) → List (List ℕ)
nonempty [] = []
nonempty (b ∷ bs) = if length b == 0 then nonempty bs else b ∷ nonempty bs

-- On a stream of whole chunks, and a socket that takes every datagram, each nonempty chunk leaves
-- as one datagram, in order, and the loop ends behind the last one.
pub uplink-chunks :
    (bs : List (List ℕ)) (fuel : ℕ) (c : Conn)
    → All (λ b. length b ≤ 65535) bs
    → c.input ≡ chunks_bytes bs
    → length bs < fuel
    → uplink fuel [] c ≡ (nonempty bs, true)
unfolding uplink
uplink-chunks bs zero c h e f = absurd (omega arith)
uplink-chunks [] (suc fuel) c h e f = rw (read_chunk_end c e)
uplink-chunks (b ∷ bs) (suc fuel) c (h, hs) e f =
    let rest : Conn = record c { input = chunks_bytes bs } in
    rw (read_one_chunk b (chunks_bytes bs) c h e) (elim (Bool-cases (length b == 0)) [
      | inl none_sent ↦ rw none_sent (uplink-chunks bs fuel rest hs refl (omega arith))
      | inr datagram ↦ rw (datagram, uplink-chunks bs fuel rest hs refl (omega arith))
    ])

delivered :
    (d : List ℕ) (outcomes : List (Option Error))
    (more : List (Option Error) → List (List ℕ) × Bool)
    → ((os : List (Option Error)) → (more os).1 ≡ true)
    → (deliver d outcomes more).1 ≡ true
delivered d [] more h = h []
delivered d (none ∷ os) more h = h os
delivered d (some e ∷ os) more h = refl

-- Whatever the stream holds and however the datagrams turn out, a round for each byte of the stream
-- and one more are enough for the loop to end.
pub uplink-ends :
    (fuel : ℕ) (outcomes : List (Option Error)) (c : Conn)
    → length c.input < fuel
    → (uplink fuel outcomes c).1 ≡ true
unfolding uplink
uplink-ends zero outcomes c h = absurd (omega arith)
uplink-ends (suc fuel) outcomes c h =
    by_read (read_chunk c).0 refl λ os fewer. uplink-ends fuel os (read_chunk c).1 fewer
  where
    by_read :
        (r : Result (List ℕ))
        → (read_chunk c).0 ≡ r
        → ((os : List (Option Error))
            → length (read_chunk c).1.input < fuel
            → (uplink fuel os (read_chunk c).1).1 ≡ true)
        → (on_chunk r outcomes (λ os. uplink fuel os (read_chunk c).1)).1 ≡ true
    by_read (err x) e later = refl
    by_read (ok d) e later =
        let fewer : length (read_chunk c).1.input < fuel = omega (arith, read_chunk-length c d e) in
        if_split (λ (x : List (List ℕ) × Bool). x.1 ≡ true) (length d == 0)
          (λ _. later outcomes fewer)
          λ _. delivered d outcomes (λ os. uplink fuel os (read_chunk c).1) (λ os. later os fewer)
