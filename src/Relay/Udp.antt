-- ===== src/Relay/Udp.antt =====
-- handleUDPStream of internal/relay/tcp.go as a whole, on the socket of internal/relay/udp.go: the
-- socket, the target's address, and its two loops, the one of the goroutine that reads the stream
-- and its own, which writes to it. They take turns in any order.
pub mod Turns
pub mod Arriving
use pisaller.Base.{
  ℕ, Bool, true, false, not, ◌&&◌, Option, none, some, List, [], ◌∷◌, ◌++◌, length, ◌==◌,
  if◌then◌else◌, Error, Result, ok, err,
}
use pisaller.Base.Int.{ℤ}
use pisaller.Stream.{Conn}
use pisaller.Protocol.{read_chunk, write_udp_reply}
use pisaller.Dial.{Resolver}
use pisaller.Relay.{resolve_udp_addr}

abbrev pub UdpAddr : Type 0
UdpAddr = List ℕ × ℕ

-- WriteTo of DirectUDPRelayer: a datagram, and where it goes.
abbrev pub write_to : UdpAddr → List ℕ → List ℕ × UdpAddr
write_to addr b = (b, addr)

pub record Handled : Type 0 where
  -- What the socket has sent, and whether it was closed.
  pub sent : List (List ℕ × UdpAddr)
  pub socket_closed : Bool
  -- Whether the goroutine that reads the stream has ended, which cancels the context, and whether
  -- the handler has returned, which closes the stream.
  pub up_ended : Bool
  pub returned : Bool
  pub stream : Conn

-- What Read of the socket meets: the deadline, a datagram with its sender's text, or another error.
pub data Arrival : Type 0 where
  timeout : Arrival
  datagram : List ℕ → List ℕ → Arrival
  broken : Arrival

-- One round of one of the two loops. Of the goroutine's it holds whether a closed stream still
-- gives what it has, and the outcome of WriteTo on the open socket.
pub data Turn : Type 0 where
  upward : Bool → Option Error → Turn
  downward : Arrival → Turn

abbrev pub end_up : Handled → Handled
end_up h = record h { up_ended = true }

-- WriteTo, which fails on a closed socket.
abbrev pub send_datagram : Bool → UdpAddr → Option Error → List ℕ → Handled → Handled
send_datagram true addr outcome d h = end_up h
send_datagram false addr none d h = record h { sent = h.sent ++ (write_to addr d ∷ []) }
send_datagram false addr (some e) d h = end_up h

abbrev pub send_chunk : UdpAddr → Option Error → Result (List ℕ) × Conn → Handled → Handled
send_chunk addr outcome (err e, c) h = end_up (record h { stream = c })
send_chunk addr outcome (ok d, c) h =
    if length d == 0
    then record h { stream = c }
    else send_datagram h.socket_closed addr outcome d (record h { stream = c })

-- A round of the goroutine, which does nothing once it has ended.
abbrev pub up_round : UdpAddr → Bool → Option Error → Handled → Handled
up_round addr still outcome h =
    if h.up_ended
    then h
    else if h.returned && not still
    then end_up h
    else send_chunk addr outcome (read_chunk h.stream) h

-- The handler's return, with its deferred calls.
abbrev pub return_from : Handled → Handled
return_from h = record h { socket_closed = true; returned = true }

abbrev pub on_reply : Result (Unit {0}) × Conn → Handled → Handled
on_reply (err e, c) h = return_from (record h { stream = c })
on_reply (ok done_, c) h = record h { stream = c }

abbrev pub on_arrival : Arrival → Handled → Handled
on_arrival timeout h = if h.up_ended then return_from h else h
on_arrival (datagram addr d) h = on_reply (write_udp_reply addr d h.stream) h
on_arrival broken h = return_from h

-- A round of the handler's loop.
abbrev pub down_round : Arrival → Handled → Handled
down_round arrival h = if h.returned then h else on_arrival arrival h

abbrev pub take_turn : UdpAddr → Turn → Handled → Handled
take_turn addr (upward still outcome) h = up_round addr still outcome h
take_turn addr (downward arrival) h = down_round arrival h

unfoldable pub run_turns : UdpAddr → List Turn → Handled → Handled
run_turns addr [] h = h
run_turns addr (t ∷ ts) h = run_turns addr ts (take_turn addr t h)

-- The handler before its loops, on an open socket.
abbrev pub open_socket : Conn → Handled
open_socket c = record {
  sent = [];
  socket_closed = false;
  up_ended = false;
  returned = false;
  stream = c;
}

-- An address that is not resolved ends the handler before the goroutine starts.
abbrev pub on_addr : Result UdpAddr → List Turn → Conn → Handled
on_addr (err e) ts c = return_from (end_up (open_socket c))
on_addr (ok addr) ts c = run_turns addr ts (open_socket c)

-- handleUDPStream; `made` is whether NewDirectUDPRelayer succeeds.
unfoldable pub handle_udp_stream :
    Resolver → (List ℕ → Option ℤ) → Bool → List Turn → ℕ → List ℕ → Conn → Handled
unfolding run_turns
handle_udp_stream net atoi made ts strategy target c =
    if made
    then on_addr (resolve_udp_addr net atoi target strategy) ts c
    else record { sent = []; socket_closed = false; up_ended = true; returned = true; stream = c }
