-- ===== src/Protocol/Handshake.antt =====
-- The handshake: what one side reads of what the other wrote, and what it refuses.
use pisaller.Base.{
  ℕ, ◌+◌, ◌≡◌, ◌≢◌, refl, sym, ap, true, List, [], ◌∷◌, ◌++◌, length, some, none, ok, err,
  invalid_handshake, ne→==,
}
use pisaller.Base.Int.{ℤ, is_pos, to_ℕ}
use pisaller.Stream.{Conn}
use pisaller.Stream.Laws.{read_full-append, write_healthy, received}
use pisaller.Protocol.{
  write_handshake_request, read_handshake_request, write_handshake_response,
  read_handshake_response,
}

pub written_request :
    (now : ℕ) (uuid : List ℕ) (t : ℤ) (w : Conn)
    → is_pos t ≡ true
    → w.faults ≡ []
    → write_handshake_request now uuid t w
      ≡ (ok tt, record w { output = w.output ++ (0x10 ∷ uuid); write_deadline = none })
unfolding write_handshake_request
written_request now uuid t w ht hf =
    rw ht (rw (write_healthy (0x10 ∷ uuid) (record w { write_deadline = some (now + to_ℕ t) }) hf))

pub read_request :
    (later : ℕ) (uuid rest : List ℕ) (u : ℤ) (r : Conn)
    → is_pos u ≡ true
    → 16 ≡ length uuid
    → r.input ≡ 0x10 ∷ (uuid ++ rest)
    → read_handshake_request later u r ≡ (ok uuid, record r { input = rest; read_deadline = none })
unfolding read_handshake_request
read_request later uuid rest u r hu hl hr =
    let c : Conn = record r { read_deadline = some (later + to_ℕ u) } in
    rw hu (
      rw (read_full-append 1 (0x10 ∷ []) (uuid ++ rest) c refl hr)
        (rw (read_full-append 16 uuid rest (record c { input = uuid ++ rest }) hl refl)))

-- Written with a positive timeout to a connection that takes it, a 16-byte UUID is what
-- ReadHandshakeRequest with a positive timeout returns; it leaves what follows, and neither
-- deadline stays set.
pub handshake_request_round_trip :
    (now later : ℕ) (uuid rest : List ℕ) (t u : ℤ) (w r : Conn)
    → is_pos t ≡ true
    → is_pos u ≡ true
    → length uuid ≡ 16
    → w.faults ≡ []
    → w.output ≡ []
    → r.input ≡ (write_handshake_request now uuid t w).1.output ++ rest
    → ((write_handshake_request now uuid t w).0 ≡ ok tt)
      × ((write_handshake_request now uuid t w).1.write_deadline ≡ none)
      × (read_handshake_request later u r
          ≡ (ok uuid, record r { input = rest; read_deadline = none }))
handshake_request_round_trip now later uuid rest t u w r ht hu hl hf ho hr =
    let e = written_request now uuid t w ht hf in
    (
      rw e,
      rw e,
      read_request later uuid rest u r hu (sym hl)
          (received _ (0x10 ∷ uuid) rest w r (ap (λ x. x.1.output) e) ho hr),
    )

pub written_response :
    (now code : ℕ) (t : ℤ) (w : Conn)
    → is_pos t ≡ true
    → w.faults ≡ []
    → write_handshake_response now code t w
      ≡ (ok tt, record w { output = w.output ++ (0x11 ∷ code ∷ []); write_deadline = none })
unfolding write_handshake_response
written_response now code t w ht hf =
    rw ht
      (rw (write_healthy (0x11 ∷ code ∷ []) (record w { write_deadline = some (now + to_ℕ t) }) hf))

pub read_response :
    (later code : ℕ) (rest : List ℕ) (u : ℤ) (r : Conn)
    → is_pos u ≡ true
    → r.input ≡ 0x11 ∷ code ∷ rest
    → read_handshake_response later u r ≡ (ok code, record r { input = rest; read_deadline = none })
unfolding read_handshake_response
read_response later code rest u r hu hr =
    let c : Conn = record r { read_deadline = some (later + to_ℕ u) } in
    rw hu (rw (read_full-append 2 (0x11 ∷ code ∷ []) rest c refl hr))

-- Written with a positive timeout to a connection that takes it, a response code is what
-- ReadHandshakeResponse with a positive timeout returns; it leaves what follows, and neither
-- deadline stays set.
pub handshake_response_round_trip :
    (now later code : ℕ) (rest : List ℕ) (t u : ℤ) (w r : Conn)
    → is_pos t ≡ true
    → is_pos u ≡ true
    → w.faults ≡ []
    → w.output ≡ []
    → r.input ≡ (write_handshake_response now code t w).1.output ++ rest
    → ((write_handshake_response now code t w).0 ≡ ok tt)
      × ((write_handshake_response now code t w).1.write_deadline ≡ none)
      × (read_handshake_response later u r
          ≡ (ok code, record r { input = rest; read_deadline = none }))
handshake_response_round_trip now later code rest t u w r ht hu hf ho hr =
    let e = written_response now code t w ht hf in
    (
      rw e,
      rw e,
      read_response later code rest u r hu
          (received _ (0x11 ∷ code ∷ []) rest w r (ap (λ x. x.1.output) e) ho hr),
    )

-- A byte other than the request's type is refused, and only that byte is taken.
pub read_request_wrong_type :
    (later b : ℕ) (rest : List ℕ) (u : ℤ) (r : Conn)
    → is_pos u ≡ true
    → b ≢ 0x10
    → r.input ≡ b ∷ rest
    → read_handshake_request later u r
      ≡ (err invalid_handshake, record r { input = rest; read_deadline = none })
unfolding read_handshake_request
read_request_wrong_type later b rest u r hu hb hr =
    let c : Conn = record r { read_deadline = some (later + to_ℕ u) } in
    rw hu (rw (read_full-append 1 (b ∷ []) rest c refl hr) (rw (ne→== b 0x10 hb)))
