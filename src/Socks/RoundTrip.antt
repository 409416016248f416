-- ===== src/Socks/RoundTrip.antt =====
-- The packets that the client builds for its user, read by the parser of such packets.
use pisaller.Base.{
  ℕ, ◌+◌, ◌*◌, ◌/◌, ◌%◌, ◌≤◌, ◌<◌, ◌≡◌, refl, sym, ap, ◌∙◌, Option, none, some, List, [], ◌∷◌, ◌++◌,
  length, arith, le→ltb, inl, inr, length-append, Option-cases,
}
use pisaller.Base.Parse.{done, ◌>>=◌}
use pisaller.Base.Parse.Laws.{byte_here, slice_here}
use pisaller.Address.{IpText, to_4}
use pisaller.Address.{length-to_4}
use pisaller.Socks.Packets.{parse_known}
use pisaller.Socks.{
  read_v4, read_domain, read_v6, read_address, target_text, parse_socks5_udp_packet, address_bytes,
  build_socks5_udp_packet,
}

-- The target that a reply from `h` and `p` is labelled with.
abbrev pub ip_target : IpText → List ℕ → ℕ → Option (List ℕ) → List ℕ
ip_target ips ip p (some ip4) = target_text 0x01 (ips.format ip4) p
ip_target ips ip p none = target_text 0x04 (ips.format ip) p

abbrev pub reply_target : IpText → List ℕ → ℕ → Option (List ℕ) → List ℕ
reply_target ips h p none = target_text 0x03 h p
reply_target ips h p (some ip) = ip_target ips ip p (to_4 ip)

-- A packet with an address of type `kind` and its bytes.
abbrev packet : ℕ → List ℕ → ℕ → List ℕ → List ℕ
packet kind addr p d = 0 ∷ 0 ∷ 0 ∷ kind ∷ (addr ++ (p / 256 % 256 ∷ p % 256 ∷ d))

port_value : (p : ℕ) → p < 65536 → p / 256 % 256 * 256 + p % 256 ≡ p
port_value p h = omega arith

length-packet :
    (kind : ℕ) (addr : List ℕ) (p : ℕ) (d : List ℕ)
    → length (packet kind addr p d) ≡ 6 + length addr + length d
length-packet kind addr p d = omega (arith, length-append addr (p / 256 % 256 ∷ p % 256 ∷ d))

v4_packet :
    (ips : IpText) (ip d : List ℕ) (p : ℕ)
    → p < 65536
    → length ip ≡ 4
    → parse_socks5_udp_packet ips (packet 1 ip p d) ≡ done (target_text 1 (ips.format ip) p, d)
unfolding read_address read_v4
v4_packet ips ip d p h l =
    let b = packet 1 ip p d in
    let tail = p / 256 % 256 ∷ p % 256 ∷ d in
    let size = length-packet 1 ip p d in
    let eight : length (0 ∷ 0 ∷ 0 ∷ 1 ∷ ip) ≡ 8 = omega arith in
    let address : read_address ips b 1 ≡ done (ips.format ip, length (0 ∷ 0 ∷ 0 ∷ 1 ∷ ip)) = rw (
      eight,
      le→ltb (length b) 8 (omega arith),
      slice_here (0 ∷ 0 ∷ 0 ∷ 1 ∷ []) ip tail b 4 4 refl refl (sym l),
    ) in
    parse_known ips 1 (p / 256 % 256) (p % 256) (ips.format ip) (0 ∷ 0 ∷ 0 ∷ 1 ∷ ip) d b
      (byte_here (0 ∷ 0 ∷ []) 0 (1 ∷ (ip ++ tail)) b 2 refl refl)
      (byte_here (0 ∷ 0 ∷ 0 ∷ []) 1 (ip ++ tail) b 3 refl refl) (omega arith) refl address
    ∙ rw (port_value p h)

v6_packet :
    (ips : IpText) (ip d : List ℕ) (p : ℕ)
    → p < 65536
    → length ip ≡ 16
    → parse_socks5_udp_packet ips (packet 4 ip p d) ≡ done (target_text 4 (ips.format ip) p, d)
unfolding read_address read_v6
v6_packet ips ip d p h l =
    let b = packet 4 ip p d in
    let tail = p / 256 % 256 ∷ p % 256 ∷ d in
    let size = length-packet 4 ip p d in
    let twenty : length (0 ∷ 0 ∷ 0 ∷ 4 ∷ ip) ≡ 20 = omega arith in
    let address : read_address ips b 4 ≡ done (ips.format ip, length (0 ∷ 0 ∷ 0 ∷ 4 ∷ ip)) = rw (
      twenty,
      le→ltb (length b) 20 (omega arith),
      slice_here (0 ∷ 0 ∷ 0 ∷ 4 ∷ []) ip tail b 4 16 refl refl (sym l),
    ) in
    parse_known ips 4 (p / 256 % 256) (p % 256) (ips.format ip) (0 ∷ 0 ∷ 0 ∷ 4 ∷ ip) d b
      (byte_here (0 ∷ 0 ∷ []) 0 (4 ∷ (ip ++ tail)) b 2 refl refl)
      (byte_here (0 ∷ 0 ∷ 0 ∷ []) 4 (ip ++ tail) b 3 refl refl) (omega arith) refl address
    ∙ rw (port_value p h)

domain_packet :
    (ips : IpText) (h d : List ℕ) (p : ℕ)
    → p < 65536
    → length h ≤ 255
    → 3 ≤ length h + length d
    → parse_socks5_udp_packet ips (packet 3 (length h % 256 ∷ h) p d) ≡ done (target_text 3 h p, d)
unfolding read_address read_domain
domain_packet ips h d p k l m =
    let b = packet 3 (length h % 256 ∷ h) p d in
    let tail = p / 256 % 256 ∷ p % 256 ∷ d in
    let n = length h % 256 in
    let small : n ≡ length h = omega arith in
    let size = length-packet 3 (n ∷ h) p d in
    let front : List ℕ = 0 ∷ 0 ∷ 0 ∷ 3 ∷ n ∷ h in
    let address : read_address ips b 3 ≡ done (h, length front) =
      rw
        (
          le→ltb (length b) 5 (omega arith),
          byte_here (0 ∷ 0 ∷ 0 ∷ 3 ∷ []) n (h ++ tail) b 4 refl refl,
          le→ltb (length b) (5 + n) (omega arith),
          slice_here (0 ∷ 0 ∷ 0 ∷ 3 ∷ n ∷ []) h tail b 5 n refl refl small,
        )
        (ap (λ (t : ℕ). done (h, t)) (omega arith)) in
    parse_known ips 3 (p / 256 % 256) (p % 256) h front d b
      (byte_here (0 ∷ 0 ∷ []) 0 (3 ∷ n ∷ (h ++ tail)) b 2 refl refl)
      (byte_here (0 ∷ 0 ∷ 0 ∷ []) 3 (n ∷ (h ++ tail)) b 3 refl refl) (omega arith) refl address
    ∙ rw (port_value p k)

by_address :
    (ips : IpText) (h d : List ℕ) (p : ℕ) (o : Option (List ℕ))
    → ((ip : List ℕ) → o ≡ some ip → length ip ≡ 16)
    → p < 65536
    → length h ≤ 255
    → 3 ≤ length h + length d
    → parse_socks5_udp_packet ips (0 ∷ 0 ∷ 0 ∷ (address_bytes h o ++ (p / 256 % 256 ∷ p % 256 ∷ d)))
      ≡ done (reply_target ips h p o, d)
by_address ips h d p none l k m n = domain_packet ips h d p k m n
by_address ips h d p (some ip) l k m n = elim (Option-cases (to_4 ip)) [
  | inl e ↦ rw e (v6_packet ips ip d p k (l ip refl))
  | inr (ip4, e) ↦ rw e (v4_packet ips ip4 d p k (length-to_4 ip ip4 (l ip refl) e))
]

-- A packet built for a host of at most 255 bytes and a 16-bit port, with host and data of three
-- bytes at least together, is read back as the same data under the host's address: the text of its
-- IPv4 or its IPv6 address where net.ParseIP takes the host (and answers 16 bytes), and else the
-- host itself.
pub build_socks5_udp_packet_round_trip :
    (ips : IpText) (h d : List ℕ) (p : ℕ)
    → ((ip : List ℕ) → ips.parse h ≡ some ip → length ip ≡ 16)
    → p < 65536
    → length h ≤ 255
    → 3 ≤ length h + length d
    → (build_socks5_udp_packet ips h p d >>= parse_socks5_udp_packet ips)
      ≡ done (reply_target ips h p (ips.parse h), d)
unfolding build_socks5_udp_packet
build_socks5_udp_packet_round_trip ips h d p l k m n =
    rw (le→ltb 255 (length h) m) (by_address ips h d p (ips.parse h) l k m n)
