-- ===== src/Protocol/Framing.antt =====
-- The open header of a stream and the chunks behind it: what the relay reads of what the client
-- wrote, and what a cut stream gives.
use pisaller.Base.{
  ℕ, suc, zero, ◌+◌, ◌/◌, ◌%◌, ◌≤◌, ◌<◌, ◌≡◌, ◌≢◌, refl, ap, ◌∙◌, true, false, List, [], ◌∷◌, ◌++◌,
  length, take, arith, ok, err, is_ok, invalid_handshake, append_assoc, le→ltb, lt→leb, ne→==,
  length-take_le, ◌==◌, All, append-nil, if◌then◌else◌,
}
use pisaller.Base.Int.{ℤ, is_pos}
use pisaller.Base.Bytes.{uint16}
use pisaller.Stream.{Conn, M, ◌>>=◌, ◌>>◌, return, read_full}
use pisaller.Stream.Laws.{
  read_full-append, read_full_short, write_healthy, write_nonempty, read_nonzero, received,
}
use pisaller.Protocol.{
  write_smux_open_header, read_smux_open_header, write_chunk, read_chunk, read_handshake_request,
}
use pisaller.Protocol.Handshake.{read_request_wrong_type}

-- The bytes of an open header and of a chunk.
abbrev pub header_bytes : ℕ → ℕ → List ℕ → List ℕ
header_bytes kind strategy target =
    kind ∷ strategy ∷ length target % 65536 / 256 ∷ length target % 65536 % 256 ∷ target

abbrev pub chunk_bytes : List ℕ → List ℕ
chunk_bytes b = length b % 65536 / 256 ∷ length b % 65536 % 256 ∷ b

pub written_header :
    (kind strategy : ℕ) (target : List ℕ) (w : Conn)
    → length target ≤ 65535
    → w.faults ≡ []
    → write_smux_open_header kind strategy target w
      ≡ (ok tt, record w { output = w.output ++ header_bytes kind strategy target })
unfolding write_smux_open_header
written_header kind strategy target w hl hf =
    let head : List ℕ =
      kind ∷ strategy ∷ length target % 65536 / 256 ∷ length target % 65536 % 256 ∷ [] in
    rw (le→ltb 65535 (length target) hl) (
      rw (write_healthy head w hf) (
        write_nonempty target (record w { output = w.output ++ head }) hf
        ∙ rw (append_assoc w.output head target)))

length_word : (n : ℕ) → n ≤ 65535 → uint16 (n % 65536 / 256) (n % 65536 % 256) ≡ n
length_word n h = omega arith

-- Behind the four bytes of a header: a body of the length that they announce.
read_header_fields :
    (kind strategy : ℕ) (target behind : List ℕ) (r : Conn)
    → length target ≤ 65535
    → r.input ≡ kind ∷ strategy ∷ length target % 65536 / 256 ∷ length target % 65536 % 256 ∷ behind
    → read_smux_open_header r
      ≡ (if length target == 0
            then return (kind, strategy, [])
            else (read_full (length target) >>= λ buf. return (kind, strategy, buf)))
          (record r { input = behind })
unfolding read_smux_open_header
read_header_fields kind strategy target behind r hl hr =
    let n = length target in
    rw
      (read_full-append 4 (kind ∷ strategy ∷ n % 65536 / 256 ∷ n % 65536 % 256 ∷ []) behind r refl
        hr)
      (rw (length_word n hl))

pub read_header :
    (kind strategy : ℕ) (target rest : List ℕ) (r : Conn)
    → length target ≤ 65535
    → r.input ≡ header_bytes kind strategy target ++ rest
    → read_smux_open_header r ≡ (ok (kind, strategy, target), record r { input = rest })
read_header kind strategy [] rest r hl hr = read_header_fields kind strategy [] rest r hl hr
read_header kind strategy (x ∷ xs) rest r hl hr =
    let body = (x ∷ xs) ++ rest in
    read_header_fields kind strategy (x ∷ xs) body r hl hr
    ∙ rw (ne→== (length (x ∷ xs)) 0 (λ e. omega arith)) (
        rw (read_full-append (length (x ∷ xs)) (x ∷ xs) rest (record r { input = body }) refl refl))

-- What the client writes to open a stream on a connection that takes it, for a target of at most
-- 65535 bytes, is what the relay's ReadSmuxOpenHeader returns, and what follows stays unread.
pub open_header_round_trip :
    (kind strategy : ℕ) (target rest : List ℕ) (w r : Conn)
    → length target ≤ 65535
    → w.faults ≡ []
    → w.output ≡ []
    → r.input ≡ (write_smux_open_header kind strategy target w).1.output ++ rest
    → ((write_smux_open_header kind strategy target w).0 ≡ ok tt)
      × (read_smux_open_header r ≡ (ok (kind, strategy, target), record r { input = rest }))
open_header_round_trip kind strategy target rest w r hl hf ho hr =
    let e = written_header kind strategy target w hl hf in
    let bytes = header_bytes kind strategy target in
    (
      rw e,
      read_header kind strategy target rest r hl
          (received _ bytes rest w r (ap (λ x. x.1.output) e) ho hr),
    )

-- On every proper prefix of an open header the relay's ReadSmuxOpenHeader fails.
pub open_header_truncated :
    (k kind strategy : ℕ) (target : List ℕ) (r : Conn)
    → length target ≤ 65535
    → k < 4 + length target
    → r.input ≡ take k (header_bytes kind strategy target)
    → is_ok (read_smux_open_header r).0 ≡ false
unfolding read_smux_open_header
open_header_truncated zero kind strategy target r hl hk hr =
    rw (read_full_short 4 r (omega (arith, ap length hr)))
open_header_truncated (suc zero) kind strategy target r hl hk hr =
    rw (read_full_short 4 r (omega (arith, ap length hr)))
open_header_truncated (suc (suc zero)) kind strategy target r hl hk hr =
    rw (read_full_short 4 r (omega (arith, ap length hr)))
open_header_truncated (suc (suc (suc zero))) kind strategy target r hl hk hr =
    rw (read_full_short 4 r (omega (arith, ap length hr)))
open_header_truncated (suc (suc (suc (suc k)))) kind strategy target r hl hk hr =
    let body = take k target in
    let short : length body < length target = omega (arith, length-take_le k target) in
    ap (λ x. is_ok x.0) (read_header_fields kind strategy target body r hl hr)
    ∙ rw (ne→== (length target) 0 (λ e. omega arith))
        (rw (read_full_short (length target) (record r { input = body }) short))

-- A connection of the client's pool opens its streams with no handshake, and the server takes the
-- first stream for one: whatever a stream is opened with other than the request's type 0x10, the
-- server's ReadHandshakeRequest answers that the handshake is invalid.
pub open_header_no_handshake :
    (kind strategy later : ℕ) (target rest : List ℕ) (u : ℤ) (w r : Conn)
    → is_pos u ≡ true
    → kind ≢ 0x10
    → length target ≤ 65535
    → w.faults ≡ []
    → w.output ≡ []
    → r.input ≡ (write_smux_open_header kind strategy target w).1.output ++ rest
    → (read_handshake_request later u r).0 ≡ err invalid_handshake
open_header_no_handshake kind strategy later target rest u w r hu hk hl hf ho hr =
    let e = written_header kind strategy target w hl hf in
    let bytes = header_bytes kind strategy target in
    let sent = received _ bytes rest w r (ap (λ x. x.1.output) e) ho hr in
    ap (λ x. x.0) (read_request_wrong_type later kind _ u r hu hk sent)

pub written_chunk :
    (b : List ℕ) (w : Conn)
    → length b ≤ 65535
    → w.faults ≡ []
    → write_chunk b w ≡ (ok tt, record w { output = w.output ++ chunk_bytes b })
unfolding write_chunk
written_chunk b w hl hf =
    let head : List ℕ = length b % 65536 / 256 ∷ length b % 65536 % 256 ∷ [] in
    rw (lt→leb 65536 (length b) (omega arith)) (
      rw (write_healthy head w hf) (
        write_nonempty b (record w { output = w.output ++ head }) hf
        ∙ rw (append_assoc w.output head b)))

pub read_one_chunk :
    (b rest : List ℕ) (r : Conn)
    → length b ≤ 65535
    → r.input ≡ chunk_bytes b ++ rest
    → read_chunk r ≡ (ok b, record r { input = rest })
unfolding read_chunk
read_one_chunk b rest r hl hr =
    let n = length b in
    rw (read_full-append 2 (n % 65536 / 256 ∷ n % 65536 % 256 ∷ []) (b ++ rest) r refl hr)
      (rw (length_word n hl) (read_nonzero n b rest (record r { input = b ++ rest }) refl refl))

-- Any number of chunks written one after the other, and as many reads.
unfoldable pub write_chunks : List (List ℕ) → M (Unit {0})
write_chunks [] = return tt
write_chunks (b ∷ bs) = do write_chunk b; write_chunks bs

unfoldable pub read_chunks : ℕ → M (List (List ℕ))
read_chunks zero = return []
read_chunks (suc n) = do b ← read_chunk; bs ← read_chunks n; return (b ∷ bs)

abbrev pub chunks_bytes : List (List ℕ) → List ℕ
chunks_bytes [] = []
chunks_bytes (b ∷ bs) = chunk_bytes b ++ chunks_bytes bs

written_chunks :
    (bs : List (List ℕ)) (w : Conn)
    → All (λ b. length b ≤ 65535) bs
    → w.faults ≡ []
    → write_chunks bs w ≡ (ok tt, record w { output = w.output ++ chunks_bytes bs })
unfolding write_chunks
written_chunks [] w h hf = rw (append-nil w.output)
written_chunks (b ∷ bs) w (hb, hbs) hf = rw (written_chunk b w hb hf) (
    written_chunks bs (record w { output = w.output ++ chunk_bytes b }) hbs hf
    ∙ rw (append_assoc w.output (chunk_bytes b) (chunks_bytes bs)))

chunks_come_back :
    (bs : List (List ℕ)) (rest : List ℕ) (r : Conn)
    → All (λ b. length b ≤ 65535) bs
    → r.input ≡ chunks_bytes bs ++ rest
    → read_chunks (length bs) r ≡ (ok bs, record r { input = rest })
unfolding read_chunks
chunks_come_back [] rest r h hr = rw (← hr)
chunks_come_back (b ∷ bs) rest r (hb, hbs) hr =
    let behind = chunks_bytes bs ++ rest in
    rw (read_one_chunk b behind r hb (hr ∙ append_assoc (chunk_bytes b) (chunks_bytes bs) rest))
      (rw (chunks_come_back bs rest (record r { input = behind }) hbs refl))

-- The datagrams that the client sends as chunks of at most 65535 bytes, empty ones among them, are
-- read back by the relay in order, with their bounds, and what follows stays unread.
pub chunks_round_trip :
    (bs : List (List ℕ)) (rest : List ℕ) (w r : Conn)
    → All (λ b. length b ≤ 65535) bs
    → w.faults ≡ []
    → w.output ≡ []
    → r.input ≡ (write_chunks bs w).1.output ++ rest
    → ((write_chunks bs w).0 ≡ ok tt)
      × (read_chunks (length bs) r ≡ (ok bs, record r { input = rest }))
chunks_round_trip bs rest w r hb hf ho hr =
    let e = written_chunks bs w hb hf in
    let bytes = chunks_bytes bs in
    (rw e, chunks_come_back bs rest r hb (received _ bytes rest w r (ap (λ x. x.1.output) e) ho hr))
