-- ===== src/Client.antt =====
-- The main session of cmd/client/main.go: its handshake, and the ping that keeps it alive.
pub mod Handshake
pub mod Websocket
pub mod Loop
pub mod Startup
mod Examples
use pisaller.Base.{
  ℕ, List, [], ◌∷◌, replicate, ◌==◌, if◌then◌else◌, Error, failure, Result, ok, err,
}
use pisaller.Base.Int.{ℤ}
use pisaller.Stream.{Conn, M, ◌>>=◌, ◌>>◌, bind_result, return, fail}
use pisaller.Protocol.{
  handshake_ok, stream_kind_ping, write_handshake_request, read_handshake_response,
}
use pisaller.Socks5.{write_quiet}

abbrev pub handshake_failed : Error
handshake_failed = failure 70

-- doHandshake on the stream that was opened. The two moments are those of the calls.
unfoldable pub do_handshake : ℕ → ℕ → List ℕ → ℤ → M (Unit {0})
do_handshake now later uuid timeout = do
  write_handshake_request now uuid timeout
  code ← read_handshake_response later timeout
  if code == handshake_ok then return tt else fail handshake_failed

-- What keepAlive writes on a stream at each tick; the errors are logged alone.
unfoldable pub keep_alive_ping : M (Unit {0})
keep_alive_ping = do write_quiet (stream_kind_ping ∷ 0 ∷ 0 ∷ 0 ∷ []); write_quiet (replicate 8 0)
