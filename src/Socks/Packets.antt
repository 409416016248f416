-- ===== src/Socks/Packets.antt =====
-- UDP packets: the parser on any bytes, and on what the client builds.
use pisaller.Base.{
  ℕ, ◌+◌, ◌*◌, ◌≤◌, ◌≡◌, refl, sym, ap, ◌∙◌, List, [], ◌∷◌, ◌++◌, length, take, drop, arith, ltb,
  le→ltb, ltb→le, ◌==◌, if_split, length-append, append_assoc, drop-append_self, length-take_le,
  take-append-drop,
}
use pisaller.Base.Parse.{Parse, done, Ensures, byte}
use pisaller.Base.Parse.Laws.{Ensures-bind, byte_in, word_in, slice_in, word_here}
use pisaller.Address.{IpText}
use pisaller.Socks.{
  read_v4, read_domain, read_v6, read_address, target_text, parse_socks5_udp_packet,
}

-- It returns, with an offset behind the address type and a byte at least.
abbrev Behind : Parse (List ℕ × ℕ) → Type 0
Behind = Ensures (λ r. 5 ≤ r.1)

read_v4-Behind : (ips : IpText) (b : List ℕ) → Behind (read_v4 ips b)
unfolding read_v4
read_v4-Behind ips b =
    if_split Behind (ltb (length b) 8) (λ _. tt)
      λ fits. let (v, e, _) = slice_in b 4 4 (ltb→le _ _ fits) in rw e (omega arith)

read_v6-Behind : (ips : IpText) (b : List ℕ) → Behind (read_v6 ips b)
unfolding read_v6
read_v6-Behind ips b =
    if_split Behind (ltb (length b) 20) (λ _. tt)
      λ fits. let (v, e, _) = slice_in b 4 16 (ltb→le _ _ fits) in rw e (omega arith)

read_domain-Behind : (b : List ℕ) → Behind (read_domain b)
unfolding read_domain
read_domain-Behind b =
    if_split Behind (ltb (length b) 5) (λ _. tt)
      λ fits.
        let (l, e) = byte_in b 4 (ltb→le _ _ fits) in
        rw e (
          if_split Behind (ltb (length b) (5 + l)) (λ _. tt)
            λ whole. let (v, g, _) = slice_in b 5 l (ltb→le _ _ whole) in rw g (omega arith))

read_address-Behind : (ips : IpText) (b : List ℕ) (kind : ℕ) → Behind (read_address ips b kind)
unfolding read_address
read_address-Behind ips b kind =
    if_split Behind (kind == 0x01) (λ _. read_v4-Behind ips b)
      λ _.
        if_split Behind (kind == 0x03) (λ _. read_domain-Behind b)
          λ _. if_split Behind (kind == 0x04) (λ _. read_v6-Behind ips b) λ _. tt

-- What the parser returns: the data is the end of the packet, behind seven bytes at least.
abbrev pub Splits : List ℕ → List ℕ × List ℕ → Type 0
Splits b r = (front : List ℕ) × (b ≡ front ++ r.1) × (7 ≤ length front)

-- On any bytes the parser of UDP packets returns, with no read out of range, and the data that it
-- returns without an error is the end of the packet, behind seven bytes at least.
pub parse_socks5_udp_packet-Splits :
    (ips : IpText) (b : List ℕ) → Ensures (Splits b) (parse_socks5_udp_packet ips b)
unfolding parse_socks5_udp_packet
parse_socks5_udp_packet-Splits ips b =
    if_split (Ensures (Splits b)) (ltb (length b) 10) (λ _. tt)
      λ fits.
        let le = ltb→le _ _ fits in
        let (frag, e) = byte_in b 2 (omega (arith, le)) in
        let (kind, f) = byte_in b 3 (omega (arith, le)) in
        rw e (
          if_split (Ensures (Splits b)) (frag == 0)
            (λ _. rw f (
              Ensures-bind (λ r. 5 ≤ r.1) (Splits b) (read_address ips b kind) _
                (read_address-Behind ips b kind)
                λ (h, off) behind.
                  if_split (Ensures (Splits b)) (ltb (length b) (off + 2)) (λ _. tt)
                    λ whole.
                      let room = ltb→le _ _ whole in
                      let (p, g) = word_in b off room in
                      rw g (
                        take (off + 2) b,
                        sym (take-append-drop (off + 2) b),
                        omega (arith, length-take_le (off + 2) b room, behind),
                      )))
            λ _. tt)

-- A packet whose address the parser has read up to `off`.
pub parse_known :
    (ips : IpText) (kind hi lo : ℕ) (t front d b : List ℕ)
    → byte b 2 ≡ done 0
    → byte b 3 ≡ done kind
    → 10 ≤ length b
    → b ≡ front ++ (hi ∷ lo ∷ d)
    → read_address ips b kind ≡ done (t, length front)
    → parse_socks5_udp_packet ips b ≡ done (target_text kind t (hi * 256 + lo), d)
unfolding parse_socks5_udp_packet
parse_known ips kind hi lo t front d b e f l k r =
    let size : length b ≡ length front + 2 + length d =
      omega (arith, ap length k, length-append front (hi ∷ lo ∷ d)) in
    let two : length front + 2 ≡ length (front ++ (hi ∷ lo ∷ [])) =
      omega (arith, length-append front (hi ∷ lo ∷ [])) in
    let rest : drop (length front + 2) b ≡ d = rw two (
      ap (drop (length (front ++ (hi ∷ lo ∷ [])))) (k ∙ sym (append_assoc front (hi ∷ lo ∷ []) d))
      ∙ drop-append_self (front ++ (hi ∷ lo ∷ [])) d) in
    rw (le→ltb (length b) 10 l, e, f, r)
      (rw (
        le→ltb (length b) (length front + 2) (omega arith),
        word_here front hi lo d b (length front) k refl,
        rest,
      ))
