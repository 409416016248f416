-- ===== src/Protocol/Unsized.antt =====
-- WriteUDPReply of internal/protocol/stream.go against the client's readUDPReply.
use pisaller.Base.{
  ℕ, ◌≡◌, ◌≤◌, ◌%◌, ◌/◌, sym, ap, ◌∙◌, List, [], ◌∷◌, ◌++◌, length, arith, ok, append_assoc,
  length-append, le→ltb,
}
use pisaller.Base.Bytes.{IsByte, uint16}
use pisaller.Stream.{Conn}
use pisaller.Stream.Laws.{write_healthy}
use pisaller.Protocol.{write_udp_reply_unsized, read_udp_reply}
use pisaller.Protocol.Udp.{word, read_reply}

written_unsized :
    (addr payload : List ℕ) (w : Conn)
    → length addr ≤ 65535
    → w.faults ≡ []
    → write_udp_reply_unsized addr payload w
      ≡ (ok tt, record w { output = w.output ++ (word (length addr) ++ (addr ++ payload)) })
unfolding write_udp_reply_unsized
written_unsized addr payload w h f =
    rw (le→ltb 65535 (length addr) h) (write_healthy (word (length addr) ++ (addr ++ payload)) w f)

-- What WriteUDPReply writes to a stream that takes it, for an address of two bytes `x` and `y` and
-- more, with a payload of two bytes `p` and `q` and more, the client's readUDPReply takes for
-- another address, without `x` and `y` and with `p` and `q` at its end, and for a payload of as
-- many bytes as `x` and `y` are for a number, if the stream has them.
pub unsized_misread :
    (x y p q : ℕ) (addr payload taken left : List ℕ) (w r : Conn)
    → IsByte x
    → IsByte y
    → length (x ∷ y ∷ addr) ≤ 65535
    → w.faults ≡ []
    → w.output ≡ []
    → payload ≡ taken ++ left
    → length taken ≡ uint16 x y
    → r.input ≡ (write_udp_reply_unsized (x ∷ y ∷ addr) (p ∷ q ∷ payload) w).1.output
    → read_udp_reply r ≡ (ok (addr ++ (p ∷ q ∷ []), taken), record r { input = left })
unsized_misread x y p q addr payload taken left w r hx hy l f o s t i =
    let shifted : List ℕ = addr ++ (p ∷ q ∷ []) in
    let e = written_unsized (x ∷ y ∷ addr) (p ∷ q ∷ payload) w l f in
    let high : uint16 x y % 65536 / 256 ≡ x = omega (arith, hx, hy) in
    let low : uint16 x y % 65536 % 256 ≡ y = omega (arith, hx, hy) in
    let bytes = word (length (x ∷ y ∷ addr)) ++ ((x ∷ y ∷ addr) ++ (p ∷ q ∷ payload)) in
    let sent : r.input ≡ bytes = i ∙ ap (λ c. c.1.output) e ∙ ap (λ z. z ++ bytes) o in
    let again : addr ++ (p ∷ q ∷ payload) ≡ shifted ++ (taken ++ left) =
      rw s (sym (append_assoc addr (p ∷ q ∷ []) (taken ++ left))) in
    read_reply shifted taken left (length (x ∷ y ∷ addr)) (uint16 x y) r
      (omega (arith, l, length-append addr (p ∷ q ∷ []))) (omega (arith, hx, hy, t))
      (sent ∙ rw (high, low) (ap (λ z. word (length (x ∷ y ∷ addr)) ++ (x ∷ y ∷ z)) again))
