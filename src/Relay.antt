-- ===== src/Relay.antt =====
-- The relay: HandleSmuxStream of internal/relay/tcp.go with the loop over chunks of its handler for
-- UDP, and resolveUDPAddr of internal/relay/udp.go. The handler for TCP is in Relay/Tcp, and the one
-- for UDP as a whole in Relay/Udp. strconv.Atoi is the parameter `atoi`.
pub mod Streams
pub mod Datagrams
pub mod Udp
pub mod Tcp
mod Examples
use pisaller.Base.{
  ℕ, zero, suc, ◌≡◌, Bool, true, false, ◌&&◌, Option, none, some, List, [], ◌∷◌, ◌++◌, length, leb,
  ltb, ◌==◌, if◌then◌else◌, Error, failure, Result, ok, err,
}
use pisaller.Base.Int.{ℤ, pos, negsuc}
use pisaller.Base.Text.{split_host_port}
use pisaller.Stream.{Conn, M, ◌>>=◌, ◌>>◌, bind_result, return, read_full, write}
use pisaller.Protocol.{
  stream_kind_ping, stream_kind_tcp, stream_kind_udp, read_smux_open_header, read_chunk,
  ip_strategy_ipv4_only, ip_strategy_ipv6_only,
}
use pisaller.Dial.{Resolver, is_v4, resolve_ips_for_dial}

-- What HandleSmuxStream does with a stream: nothing (more), or one of two handlers with a strategy
-- and a target.
pub data Handler : Type 0 where
  ends : Handler
  tcp : ℕ → List ℕ → Handler
  udp : ℕ → List ℕ → Handler

-- A ping: eight bytes are sent back.
unfoldable pub pong : M Handler
pong = do payload ← read_full 8; write payload; return ends

unfoldable pub dispatch : ℕ × ℕ × List ℕ → M Handler
unfolding pong
dispatch (kind, strategy, target) =
    if kind == stream_kind_ping
    then pong
    else if kind == stream_kind_tcp
    then return (tcp strategy target)
    else if kind == stream_kind_udp
    then return (udp strategy target)
    else return ends

-- HandleSmuxStream, up to the handler; an error ends it.
unfoldable pub handle_smux_stream : M Handler
handle_smux_stream = do head ← read_smux_open_header; dispatch head

abbrev pub bad_port : Error
bad_port = failure 40

abbrev pub barred : Error
barred = failure 41

abbrev pub no_ip : Error
no_ip = failure 42

-- The port of resolveUDPAddr.
abbrev pub udp_port : Option ℤ → Result ℕ
udp_port none = err bad_port
udp_port (some (negsuc n)) = err bad_port
udp_port (some (pos n)) = if ltb 65535 n then err bad_port else ok n

-- The host and the port's text; an address that does not split is a host at port 0.
abbrev pub host_and_port : List ℕ → Option (List ℕ × List ℕ) → List ℕ × List ℕ
host_and_port addr none = (addr, b'0' ∷ [])
host_and_port addr (some parts) = parts

abbrev pub first_ip : List (List ℕ) → ℕ → Result (List ℕ × ℕ)
first_ip [] port = err no_ip
first_ip (ip ∷ ips) port = ok (ip, port)

pub udp_address : Resolver → List ℕ → ℕ → ℕ → Option (List ℕ) → Result (List ℕ × ℕ)
udp_address net host strategy port (some ip) =
    if strategy == ip_strategy_ipv4_only
    then if is_v4 ip then ok (ip, port) else err barred
    else if strategy == ip_strategy_ipv6_only
    then if is_v4 ip then err barred else ok (ip, port)
    else ok (ip, port)
udp_address net host strategy port none = first_ip (resolve_ips_for_dial net host strategy) port

abbrev pub with_port : Resolver → List ℕ → ℕ → Result ℕ → Result (List ℕ × ℕ)
with_port net host strategy (err e) = err e
with_port net host strategy (ok port) = udp_address net host strategy port (net.parse host)

pub resolve_udp_addr : Resolver → (List ℕ → Option ℤ) → List ℕ → ℕ → Result (List ℕ × ℕ)
resolve_udp_addr net atoi addr strategy =
    let parts = host_and_port addr (split_host_port addr) in
    with_port net parts.0 strategy (udp_port (atoi parts.1))

-- The first goroutine of handleUDPStream: the chunks of the stream, each but an empty one as a
-- datagram, until a read fails or WriteTo does. `outcomes` are those of WriteTo; behind them it
-- succeeds. The result is the datagrams, and whether the goroutine has ended (it has not when the
-- fuel runs out).
abbrev pub deliver :
    List ℕ
    → List (Option Error)
    → (List (Option Error) → List (List ℕ) × Bool)
    → List (List ℕ) × Bool
deliver d [] more = let rest = more [] in (d ∷ rest.0, rest.1)
deliver d (none ∷ os) more = let rest = more os in (d ∷ rest.0, rest.1)
deliver d (some e ∷ os) more = ([], true)

abbrev pub on_chunk :
    Result (List ℕ)
    → List (Option Error)
    → (List (Option Error) → List (List ℕ) × Bool)
    → List (List ℕ) × Bool
on_chunk (err e) outcomes more = ([], true)
on_chunk (ok d) outcomes more = if length d == 0 then more outcomes else deliver d outcomes more

pub uplink : ℕ → List (Option Error) → Conn → List (List ℕ) × Bool
uplink zero outcomes c = ([], false)
uplink (suc fuel) outcomes c =
    on_chunk (read_chunk c).0 outcomes (λ os. uplink fuel os (read_chunk c).1)
