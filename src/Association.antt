-- ===== src/Association.antt =====
-- The UDP association of cmd/client/main.go: its datagrams, its one stream, and how it ends. Three
-- goroutines work on it: the loop over the client's datagrams, the reader of the stream, and the
-- handler that waits for the end of the TCP connection. A section under the lock is one definition.
pub mod Steps
pub mod Invariant
pub mod Binding
pub mod Target
mod Examples
use pisaller.Base.{
  ℕ, ◌+◌, ◌*◌, ◌/◌, ◌%◌, ◌≡◌, Bool, true, false, ◌&&◌, ◌||◌, not, Option, none, some, List, [], ◌∷◌,
  ◌++◌, length, replicate, ◌==◌, if◌then◌else◌, Error, Result, ok, err,
}
use pisaller.Base.Parse.{Parse, done, fails}
use pisaller.Base.Text.{list_eq, split_host_port, join_host_port}
use pisaller.Stream.{Conn}
use pisaller.Address.{IpText, to_4}
use pisaller.Protocol.{ip_strategy_ipv4_only, ip_strategy_ipv6_only, write_chunk}
use pisaller.Socks.{parse_socks5_udp_packet, build_socks5_udp_packet}
use pisaller.Socks5.{is_4, is_6, host_of}

pub record Association : Type 0 where
  -- The String of clientUDPAddr, by which the code compares it.
  pub client_udp_addr : Option (List ℕ)
  pub closed : Bool
  pub receiving : Bool
  pub channel_id : Option ℕ
  pub target : List ℕ
  -- The stream that was opened, and whether the field `stream` still holds it.
  pub wire : Option Conn
  pub has_stream : Bool
  -- The datagrams that WriteToUDP was given, with their receivers.
  pub delivered : List (List ℕ × List ℕ)
  -- What was closed.
  pub stream_shut : Bool
  pub listener_shut : Bool
  pub tcp_shut : Bool

-- As handleSOCKS5UDP makes it.
pub new_association : Association
new_association = record {
  client_udp_addr = none;
  closed = false;
  receiving = false;
  channel_id = none;
  target = [];
  wire = none;
  has_stream = false;
  delivered = [];
  stream_shut = false;
  listener_shut = false;
  tcp_shut = false;
}

-- The reply of handleSOCKS5UDP with the listener's address.
pub bound_reply : List ℕ → ℕ → List ℕ
bound_reply ip port =
    0x05 ∷ 0x00 ∷ 0x00 ∷ (address (to_4 ip) ++ (port / 256 % 256 ∷ port % 256 ∷ []))
  where
    address : Option (List ℕ) → List ℕ
    address (some ip4) = 0x01 ∷ ip4
    address none = 0x04 ∷ ip

-- Close
pub close_association : Association → Association
close_association a = if a.closed then a else record a {
  closed = true;
  has_stream = false;
  stream_shut = a.stream_shut || a.has_stream;
  listener_shut = true;
  tcp_shut = true;
}

-- The first section of loop: does the datagram come from the association's client? The first sender
-- becomes it.
abbrev pub from_client : Option (List ℕ) → List ℕ → Bool
from_client none addr = true
from_client (some client) addr = list_eq client addr

abbrev pub adopt_first : Option (List ℕ) → List ℕ → Association → Association
adopt_first none addr a = record a { client_udp_addr = some addr }
adopt_first (some client) addr a = a

abbrev pub adopt : List ℕ → Association → Association
adopt addr a = adopt_first a.client_udp_addr addr a

-- The strategy's test of loop.
pub is_filtered : ℕ → Option (List ℕ) → Bool
is_filtered strategy ip =
    (strategy == ip_strategy_ipv4_only && is_6 ip) || (strategy == ip_strategy_ipv6_only && is_4 ip)

-- What loop makes of a datagram: target and data for send, or nothing.
abbrev pub unfiltered : IpText → ℕ → Parse (List ℕ × List ℕ) → Option (List ℕ × List ℕ)
unfiltered ips strategy (done (tgt, d)) =
    if is_filtered strategy (ips.parse (host_of (split_host_port tgt))) then none else some (tgt, d)
unfiltered ips strategy _ = none

pub read_datagram : IpText → ℕ → List ℕ → Option (List ℕ × List ℕ)
read_datagram ips strategy b = unfiltered ips strategy (parse_socks5_udp_packet ips b)

-- The first section of send, with what openUDPStream answers for this target where it is asked. It
-- returns the data that is then to be written.
abbrev pub started :
    List ℕ → List ℕ → Result (ℕ × Conn) → Association → Option (List ℕ) × Association
started tgt d (ok (ch, c)) a = (
  some d,
  record a {
    receiving = true;
    target = tgt;
    wire = some c;
    has_stream = true;
    channel_id = some ch;
  },
)
started tgt d (err e) a = (
  none,
  record a {
    receiving = true;
    target = tgt;
    closed = true;
    has_stream = false;
    listener_shut = true;
    tcp_shut = true;
  },
)

abbrev pub retarget : List ℕ → List ℕ → List ℕ
retarget tgt old = if length tgt == 0 || list_eq tgt old then old else tgt

pub send : List ℕ → List ℕ → Result (ℕ × Conn) → Association → Option (List ℕ) × Association
unfolding close_association
send tgt d answer a =
    if a.closed
    then (none, a)
    else if not a.receiving
    then started tgt d answer a
    else let b = record a { target = retarget tgt a.target } in
      if a.has_stream then (some d, b) else (none, close_association b)

-- The rest of send: the write, without the lock, on the stream that the section has found.
abbrev pub after_write : Association → Result (Unit {0}) × Conn → Association
after_write a (ok done_, c) = record a { wire = some c }
after_write a (err e, c) = close_association (record a { wire = some c })

pub write_data : List ℕ → Association → Association
unfolding close_association
write_data d a = elim a.wire [ none ↦ a | some c ↦ after_write a (write_chunk d c) ]

-- handleUDPResponse; `scan` is fmt.Sscanf of a number, for one that is not negative.
abbrev pub deliver_to : Option (List ℕ) → List ℕ → Association → Association
deliver_to none pkt a = a
deliver_to (some client) pkt a = record a { delivered = a.delivered ++ ((client, pkt) ∷ []) }

abbrev pub deliver : Parse (List ℕ) → Association → Association
deliver (done pkt) a = deliver_to a.client_udp_addr pkt a
deliver _ a = a

abbrev pub port_of : Option (List ℕ × List ℕ) → List ℕ
port_of none = []
port_of (some (h, p)) = p

pub handle_udp_response : IpText → (List ℕ → Option ℕ) → List ℕ → List ℕ → Association → Association
handle_udp_response ips scan addr d a =
    let parts = split_host_port addr in
    elim (scan (port_of parts)) [
      | none ↦ a
      | some port ↦ deliver (build_socks5_udp_packet ips (host_of parts) port d) a
    ]
