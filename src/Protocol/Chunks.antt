-- ===== src/Protocol/Chunks.antt =====
-- Reading a chunk from any connection.
use pisaller.Base.{
  ℕ, ◌<◌, ◌≡◌, ap, List, [], length, length-append, ◌==◌, if_split, arith, ok, err, Result,
}
use pisaller.Base.Bytes.{uint16_at}
use pisaller.Stream.{Conn, read_full}
use pisaller.Stream.Laws.{
  Succeeds, Succeeds-bind, Succeeds-intro, Succeeds-elim, read_full-ok, read_full_short,
}
use pisaller.Protocol.{read_chunk}

-- At the end of a stream there is no chunk.
pub read_chunk_end : (r : Conn) → r.input ≡ [] → (read_chunk r).0 ≡ err r.ending
unfolding read_chunk
read_chunk_end r e = rw (read_full_short 2 r (rw e (omega arith))) (rw e)

read_chunk-Shorter : (c : Conn) → Succeeds (λ _ r. length r.input < length c.input) (read_chunk c)
unfolding read_chunk
read_chunk-Shorter c = Succeeds-bind Shorter (read_full 2 c) _ λ h e.
    let (l, i) = read_full-ok 2 c h e in
    let c₁ = (read_full 2 c).1 in
    let fewer : length c₁.input < length c.input =
      omega (arith, l, ap length i, length-append h c₁.input) in
    if_split (λ (m : Conn → Result (List ℕ) × Conn). Succeeds Shorter (m c₁)) (uint16_at h 0 == 0)
      (λ _. fewer)
      λ _. Succeeds-intro Shorter (read_full (uint16_at h 0) c₁) λ b f.
        let (k, j) = read_full-ok (uint16_at h 0) c₁ b f in
        omega (arith, fewer, ap length j, length-append b (read_full (uint16_at h 0) c₁).1.input)
  where
    Shorter : List ℕ → Conn → Type 0
    Shorter _ r = length r.input < length c.input

-- A chunk that is read has taken two bytes at least.
pub read_chunk-length :
    (c : Conn) (d : List ℕ)
    → (read_chunk c).0 ≡ ok d
    → length (read_chunk c).1.input < length c.input
read_chunk-length c d e =
    Succeeds-elim (λ r. length r.input < length c.input) (read_chunk c) d (read_chunk-Shorter c) e
