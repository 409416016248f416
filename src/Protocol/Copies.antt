-- ===== src/Protocol/Copies.antt =====
-- The framing functions that the repository has a second time: readChunk and writeUDPReply of
-- cmd/client/main.go, and ReadChunk of internal/protocol/stream.go, beside those of
-- internal/relay/tcp.go.
use pisaller.Base.{
  ℕ, ◌≡◌, refl, List, [], ◌++◌, length, ltb, ◌==◌, if◌then◌else◌, Result, ok, err, addr_too_long,
  Bool-cases, inl, inr,
}
use pisaller.Base.Bytes.{to_uint16, put_uint16, uint16_at}
use pisaller.Stream.{Conn, M, ◌>>=◌, ◌>>◌, bind_result, return, fail, read_full, write}
use pisaller.Protocol.{read_chunk, write_udp_reply}

-- binary.Read of a big-endian uint16.
abbrev pub binary_read : M ℕ
binary_read = do b ← read_full 2; return (uint16_at b 0)

-- ReadChunk of the protocol.
pub stream_read_chunk : M (List ℕ)
stream_read_chunk = do
  size ← binary_read
  if size == 0 then return [] else do data_ ← read_full size; return data_

-- readChunk of the client.
pub client_read_chunk : M (List ℕ)
client_read_chunk = do
  h ← read_full 2
  let n = uint16_at h 0
  if n == 0 then return [] else read_full n

-- writeUDPReply of the client.
pub client_write_udp_reply : List ℕ → List ℕ → M (Unit {0})
client_write_udp_reply addr payload = if ltb 65535 (length addr) then fail addr_too_long else do
  write (put_uint16 (to_uint16 (length addr)) ++ put_uint16 (to_uint16 (length payload)))
  if ltb 0 (length addr) then write addr else return tt
  if ltb 0 (length payload) then write payload else return tt

returned : (r : Result (List ℕ) × Conn) → bind_result r.0 r.1 return ≡ r
returned (ok a, c) = refl
returned (err e, c) = refl

sized :
    (n : ℕ) (c : Conn)
    → (if n == 0 then return [] else do data_ ← read_full n; return data_) c
      ≡ (if n == 0 then return [] else read_full n) c
sized n c = elim (Bool-cases (n == 0)) [
  | inl e ↦ rw e refl
  | inr e ↦ rw e (returned (read_full n c))
]

-- On every connection, whatever it holds and however it ends, the three readers return the same
-- chunk or the same error and leave the same bytes, and the two writers of a reply do the same.
pub read_chunk-agree :
    (addr payload : List ℕ) (c : Conn)
    → (stream_read_chunk c ≡ read_chunk c)
      × (client_read_chunk c ≡ read_chunk c)
      × (client_write_udp_reply addr payload c ≡ write_udp_reply addr payload c)
unfolding stream_read_chunk client_read_chunk client_write_udp_reply read_chunk write_udp_reply
read_chunk-agree addr payload c = (behind (read_full 2 c), refl, refl)
  where
    behind :
        (r : Result (List ℕ) × Conn)
        → bind_result
            (bind_result r.0 r.1 (λ b. return (uint16_at b 0))).0
            (bind_result r.0 r.1 (λ b. return (uint16_at b 0))).1
            (λ n. if n == 0 then return [] else do data_ ← read_full n; return data_)
          ≡ bind_result r.0 r.1
              (λ h. if uint16_at h 0 == 0 then return [] else read_full (uint16_at h 0))
    behind (ok b, d) = sized (uint16_at b 0) d
    behind (err e, d) = refl
