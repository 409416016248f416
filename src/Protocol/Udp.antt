-- ===== src/Protocol/Udp.antt =====
-- The framings of UDP replies: the one that the relay and the client share, and the two of
-- internal/protocol/stream.go that have no user.
use pisaller.Base.{
  ℕ, ◌/◌, ◌%◌, ◌≤◌, ◌≡◌, refl, sym, ap, ◌∙◌, List, [], ◌∷◌, ◌++◌, length, take, drop, arith, ok,
  err, ltb, true, append_assoc, le→ltb, take-append-drop, length-take_le,
}
use pisaller.Base.Bytes.{uint16}
use pisaller.Stream.{Conn}
use pisaller.Stream.Laws.{read_full-append, write_healthy, write_positive, read_positive, received}
use pisaller.Protocol.{
  addr_too_long, write_udp_reply, read_udp_reply, write_udp_chunk, read_udp_chunk,
}

abbrev pub word : ℕ → List ℕ
word n = n % 65536 / 256 ∷ n % 65536 % 256 ∷ []

word_value : (n : ℕ) → uint16 (n % 65536 / 256) (n % 65536 % 256) ≡ n % 65536
word_value n = omega arith

word_small : (n : ℕ) → n ≤ 65535 → uint16 (n % 65536 / 256) (n % 65536 % 256) ≡ n
word_small n h = omega arith

abbrev pub reply_bytes : List ℕ → List ℕ → List ℕ
reply_bytes addr payload = word (length addr) ++ (word (length payload) ++ (addr ++ payload))

pub oversized_reply :
    (addr payload : List ℕ) (w : Conn)
    → ltb 65535 (length addr) ≡ true
    → write_udp_reply addr payload w ≡ (err addr_too_long, w)
unfolding write_udp_reply
oversized_reply addr payload w h = rw h refl

pub written_reply :
    (addr payload : List ℕ) (w : Conn)
    → length addr ≤ 65535
    → w.faults ≡ []
    → write_udp_reply addr payload w
      ≡ (ok tt, record w { output = w.output ++ reply_bytes addr payload })
unfolding write_udp_reply
written_reply addr payload w hl hf =
    let head : List ℕ = word (length addr) ++ word (length payload) in
    let w1 : Conn = record w { output = w.output ++ head } in
    let w2 : Conn = record w { output = (w.output ++ head) ++ addr } in
    rw (le→ltb 65535 (length addr) hl) (
      rw (write_healthy head w hf) (
        rw (write_positive addr w1 hf) (
          write_positive payload w2 hf
          ∙ rw (append_assoc (w.output ++ head) addr payload)
              (rw (append_assoc w.output head (addr ++ payload))))))

-- The reader goes by the two announced lengths, whatever was meant.
pub read_reply :
    (addr payload rest : List ℕ) (a d : ℕ) (r : Conn)
    → a % 65536 ≡ length addr
    → d % 65536 ≡ length payload
    → r.input ≡ word a ++ (word d ++ (addr ++ (payload ++ rest)))
    → read_udp_reply r ≡ (ok (addr, payload), record r { input = rest })
unfolding read_udp_reply
read_reply addr payload rest a d r ha hd hr =
    let behind = addr ++ (payload ++ rest) in
    rw (read_full-append 4 (word a ++ word d) behind r refl hr) (
      rw (word_value a, word_value d)
        (rw (read_positive (a % 65536) addr (payload ++ rest) (record r { input = behind }) ha refl)
          (rw (
            read_positive (d % 65536) payload rest (record r { input = payload ++ rest }) hd
              refl))))

read_sent :
    (addr payload rest : List ℕ) (r : Conn)
    → length addr ≤ 65535
    → r.input ≡ reply_bytes addr payload ++ rest
    → read_udp_reply r ≡ (
      ok (addr, take (length payload % 65536) payload),
      record r { input = drop (length payload % 65536) payload ++ rest },
    )
read_sent addr payload rest r ha hr =
    let n = length payload % 65536 in
    let split : payload ++ rest ≡ take n payload ++ (drop n payload ++ rest) =
      ap (λ x. x ++ rest) (sym (take-append-drop n payload))
      ∙ append_assoc (take n payload) (drop n payload) rest in
    let fits : n ≡ length (take n payload) = sym (length-take_le n payload (omega arith)) in
    read_reply addr (take n payload) (drop n payload ++ rest) (length addr) (length payload) r
      (omega arith) fits
      (hr
        ∙ ap (λ x. word (length addr) ++ (word (length payload) ++ x))
            (append_assoc addr payload rest ∙ ap (λ x. addr ++ x) split))

-- A reply that the relay writes to a stream that takes it, with an address of at most 65535 bytes,
-- is read by the client as that address and the first `length payload % 65536` bytes of the
-- payload, and the rest of the payload is left in the stream, before what follows.
pub udp_reply_round_trip :
    (addr payload rest : List ℕ) (w r : Conn)
    → length addr ≤ 65535
    → w.faults ≡ []
    → w.output ≡ []
    → r.input ≡ (write_udp_reply addr payload w).1.output ++ rest
    → ((write_udp_reply addr payload w).0 ≡ ok tt)
      × (read_udp_reply r ≡ (
        ok (addr, take (length payload % 65536) payload),
        record r { input = drop (length payload % 65536) payload ++ rest },
      ))
udp_reply_round_trip addr payload rest w r ha hf ho hr =
    let e = written_reply addr payload w ha hf in
    let got =
      read_sent addr payload rest r ha
        (received _ (reply_bytes addr payload) rest w r (ap (λ x. x.1.output) e) ho hr) in
    (rw e, got)

abbrev chunk_pair_bytes : List ℕ → List ℕ → List ℕ
chunk_pair_bytes addr payload = word (length addr) ++ (addr ++ (word (length payload) ++ payload))

read_pair :
    (addr payload rest : List ℕ) (r : Conn)
    → length addr ≤ 65535
    → length payload ≤ 65535
    → r.input ≡ word (length addr) ++ (addr ++ (word (length payload) ++ (payload ++ rest)))
    → read_udp_chunk r ≡ (ok (addr, payload), record r { input = rest })
unfolding read_udp_chunk
read_pair addr payload rest r ha hp hr =
    let last = payload ++ rest in
    let third = word (length payload) ++ last in
    let second = addr ++ third in
    rw (read_full-append 2 (word (length addr)) second r refl hr) (
      rw (word_small (length addr) ha) (
        rw (read_full-append (length addr) addr third (record r { input = second }) refl refl) (
          rw
            (read_full-append 2 (word (length payload)) last (record r { input = third }) refl refl)
            (rw (word_small (length payload) hp) (
              rw (
                read_full-append (length payload) payload rest (record r { input = last }) refl
                  refl))))))

written_pair :
    (addr payload : List ℕ) (w : Conn)
    → length addr ≤ 65535
    → w.faults ≡ []
    → write_udp_chunk addr payload w
      ≡ (ok tt, record w { output = w.output ++ chunk_pair_bytes addr payload })
unfolding write_udp_chunk
written_pair addr payload w ha hf =
    rw (le→ltb 65535 (length addr) ha) (write_healthy (chunk_pair_bytes addr payload) w hf)

-- WriteUDPChunk and ReadUDPChunk: an address and data of at most 65535 bytes each come back, and
-- what follows stays unread.
pub udp_chunk_round_trip :
    (addr payload rest : List ℕ) (w r : Conn)
    → length addr ≤ 65535
    → length payload ≤ 65535
    → w.faults ≡ []
    → w.output ≡ []
    → r.input ≡ (write_udp_chunk addr payload w).1.output ++ rest
    → ((write_udp_chunk addr payload w).0 ≡ ok tt)
      × (read_udp_chunk r ≡ (ok (addr, payload), record r { input = rest }))
udp_chunk_round_trip addr payload rest w r ha hp hf ho hr =
    let bytes = chunk_pair_bytes addr payload in
    let e = written_pair addr payload w ha hf in
    (
      rw e,
      read_pair addr payload rest r ha hp (
          received _ bytes rest w r (ap (λ x. x.1.output) e) ho hr
          ∙ ap (λ x. word (length addr) ++ x)
              (append_assoc addr (word (length payload) ++ payload) rest)),
    )
