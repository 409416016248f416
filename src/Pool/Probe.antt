-- ===== src/Pool/Probe.antt =====
-- probeChannelRTTOnce: the ping on a stream of its own, behind SetDeadline. The payload is the time
-- in eight bytes.
use pisaller.Base.{ℕ, List, [], Error, failure, if◌then◌else◌}
use pisaller.Base.Text.{list_eq}
use pisaller.Stream.{M, ◌>>=◌, ◌>>◌, return, fail, read_full, write}
use pisaller.Protocol.{stream_kind_ping, write_smux_open_header}

abbrev pub mismatch : Error
mismatch = failure 43

unfoldable pub probe_channel_rtt_once : List ℕ → M (Unit {0})
probe_channel_rtt_once payload = do
  write_smux_open_header stream_kind_ping 0 []
  write payload
  ack ← read_full 8
  if list_eq ack payload then return tt else fail mismatch
