-- ===== src/Pool/Open.antt =====
-- openTCPStream and openUDPStream: a stream of the best channel, with its open header written.
use pisaller.Base.{ℕ, Option, none, some, List, Error, Result, ok, err}
use pisaller.Stream.{Conn}
use pisaller.Protocol.{stream_kind_tcp, stream_kind_udp, write_smux_open_header}
use pisaller.Pool.{EchPool, open_best_stream}

-- A panic of the choice, an error, or the channel's number and the stream.
pub data Opened : Type 0 where
  crashes : Opened
  unopened : Error → Opened
  opened : ℕ → Conn → Opened

abbrev pub with_header : ℕ → Result (Unit {0}) × Conn → Opened
with_header ch (ok done_, c) = opened ch c
with_header ch (err e, c) = unopened e

-- `stream` gives the connection of a stream by the number that OpenStream answered.
abbrev pub after_open :
    (ℕ → Conn) → ℕ → ℕ → List ℕ → Option (Result (ℕ × ℕ)) × EchPool → Opened × EchPool
after_open stream kind strategy target (none, p) = (crashes, p)
after_open stream kind strategy target (some (err e), p) = (unopened e, p)
after_open stream kind strategy target (some (ok (s, ch)), p) =
    (with_header ch (write_smux_open_header kind strategy target (stream s)), p)

unfoldable pub open_tcp_stream :
    (EchPool → EchPool) → (ℕ → Conn) → ℕ → List ℕ → EchPool → Opened × EchPool
open_tcp_stream between stream strategy target p =
    after_open stream stream_kind_tcp strategy target (open_best_stream between p)

pub open_udp_stream : (EchPool → EchPool) → (ℕ → Conn) → ℕ → List ℕ → EchPool → Opened × EchPool
open_udp_stream between stream strategy target p =
    after_open stream stream_kind_udp strategy target (open_best_stream between p)
