-- ===== src/Association/Binding.antt =====
-- handleSOCKS5UDP of cmd/client/main.go: the listener, the reply with its address, the association,
-- and its end. What net.ListenUDP and LocalAddr answer is an argument.
use pisaller.Base.{
  ℕ, ◌/◌, ◌%◌, ◌≡◌, ◌⊎◌, inl, inr, refl, ap, Option-cases, Bool, true, false, Option, none, some,
  List, [], ◌∷◌, ◌++◌, Result, ok, err, arith,
}
use pisaller.Base.Bytes.{uint16}
use pisaller.Address.{to_4}
use pisaller.Stream.{Conn, Fault, accept, refuse, write, write_by}
use pisaller.Association.{Association, new_association, bound_reply}

-- An error of ListenUDP, a local address of another kind, or an IP and a port.
pub data Bound : Type 0 where
  unbound : Bound
  unaddressed : Bound
  bound : List ℕ → ℕ → Bound

pub record Binding : Type 0 where
  pub tcp : Conn
  pub tcp_closed : Bool
  pub listener_made : Bool
  pub listener_closed : Bool
  pub association : Option Association

abbrev pub given_up : Bool → Conn → Binding
given_up made c = record {
  tcp = c;
  tcp_closed = true;
  listener_made = made;
  listener_closed = made;
  association = none;
}

abbrev pub replied : Result (Unit {0}) × Conn → Binding
replied (err e, c) = given_up true c
replied (ok done_, c) = record {
  tcp = c;
  tcp_closed = false;
  listener_made = true;
  listener_closed = false;
  association = some new_association;
}

-- Up to the start of the association's loop.
unfoldable pub handle_socks5_udp : Bound → Conn → Binding
handle_socks5_udp unbound c = given_up false c
handle_socks5_udp unaddressed c = given_up true c
handle_socks5_udp (bound ip port) c = replied (write (bound_reply ip port) c)

-- The listener is closed if it was made, and so is the TCP connection.
abbrev pub AllShut : Binding → Type 0
AllShut b = (b.tcp_closed ≡ true) × (b.listener_closed ≡ b.listener_made)

abbrev pub reply_head : List ℕ → Option (List ℕ) → List ℕ
reply_head ip (some ip4) = 0x05 ∷ 0x00 ∷ 0x00 ∷ 0x01 ∷ ip4
reply_head ip none = 0x05 ∷ 0x00 ∷ 0x00 ∷ 0x04 ∷ ip

reply_parts :
    (ip : List ℕ) (port : ℕ)
    → bound_reply ip port ≡ reply_head ip (to_4 ip) ++ (port / 256 % 256 ∷ port % 256 ∷ [])
unfolding bound_reply
reply_parts ip port = elim (Option-cases (to_4 ip)) [ inl e ↦ rw e refl | inr (ip4, e) ↦ rw e refl ]

-- What comes of an answer: everything that was made is closed and there is no association; or the
-- client has got the reply with the listener's IP and the two bytes of its port, and there is a new
-- association.
abbrev pub Comes : Bound → Conn → Binding → Type 0
Comes b c r =
    (AllShut r × (r.association ≡ none))
    ⊎ ((ip : List ℕ) × (port hi lo : ℕ) × (b ≡ bound ip port)
        × (r.association ≡ some new_association)
        × (r.tcp.output ≡ c.output ++ (reply_head ip (to_4 ip) ++ (hi ∷ lo ∷ [])))
        × (uint16 hi lo ≡ port % 65536))

replied-Comes :
    (ip : List ℕ) (port : ℕ) (c : Conn) (fs : List Fault)
    → Comes (bound ip port) c (replied (write_by fs (bound_reply ip port) c))
unfolding write_by
replied-Comes ip port c [] = inr (
  ip,
  port,
  port / 256 % 256,
  port % 256,
  refl,
  refl,
  ap (λ p. c.output ++ p) (reply_parts ip port),
  omega arith,
)
replied-Comes ip port c (accept ∷ fs) = inr (
  ip,
  port,
  port / 256 % 256,
  port % 256,
  refl,
  refl,
  ap (λ p. c.output ++ p) (reply_parts ip port),
  omega arith,
)
replied-Comes ip port c (refuse n e ∷ fs) = inl ((refl, refl), refl)

-- Whatever ListenUDP and LocalAddr answer and whatever the write of the reply comes to,
-- handleSOCKS5UDP either gives up, with the TCP connection closed and the listener too if there is
-- one, or it has sent 5, 0, 0, the kind and bytes of the listener's IP (an IPv4 one in four bytes)
-- and its port modulo 65536 in two, and starts an association.
pub handle_socks5_udp-Comes : (b : Bound) (c : Conn) → Comes b c (handle_socks5_udp b c)
unfolding handle_socks5_udp write
handle_socks5_udp-Comes unbound c = inl ((refl, refl), refl)
handle_socks5_udp-Comes unaddressed c = inl ((refl, refl), refl)
handle_socks5_udp-Comes (bound ip port) c = replied-Comes ip port c c.faults
