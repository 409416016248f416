-- ===== src/Protocol.antt =====
-- internal/constants, internal/protocol and the framing helpers of cmd/client/main.go and
-- internal/relay/tcp.go: what goes over a smux stream. A string is the list of its bytes.
-- The children prove what a reader makes of what a writer wrote.
pub mod Handshake
pub mod Framing
pub mod Chunks
pub mod Udp
pub mod Copies
pub mod Unsized
mod Examples
use pisaller.Base.{
  ℕ, ◌+◌, ◌*◌, ◌/◌, ◌%◌, ◌≡◌, Bool, true, false, List, [], ◌∷◌, ◌++◌, length, leb, ltb, ◌==◌,
  if◌then◌else◌, Error, invalid_handshake, bad_timeout, target_too_long, chunk_too_long,
  addr_too_long,
}
use pisaller.Base.Int.{ℤ, is_pos}
use pisaller.Base.Bytes.{to_uint16, put_uint16, uint16_at, byte_at}
use pisaller.Stream.{
  M, ◌>>=◌, ◌>>◌, return, fail, read_full, write, with_read_deadline, with_write_deadline,
}

-- internal/constants/constants.go
abbrev pub ip_strategy_ipv4_only : ℕ
ip_strategy_ipv4_only = 0x01

abbrev pub ip_strategy_ipv6_only : ℕ
ip_strategy_ipv6_only = 0x02

abbrev pub ip_strategy_ipv4_prefer : ℕ
ip_strategy_ipv4_prefer = 0x03

abbrev pub ip_strategy_ipv6_prefer : ℕ
ip_strategy_ipv6_prefer = 0x04

abbrev pub stream_kind_ping : ℕ
stream_kind_ping = 0x01

abbrev pub stream_kind_tcp : ℕ
stream_kind_tcp = 0x02

abbrev pub stream_kind_udp : ℕ
stream_kind_udp = 0x03

abbrev pub handshake_req : ℕ
handshake_req = 0x10

abbrev pub handshake_resp : ℕ
handshake_resp = 0x11

abbrev pub handshake_ok : ℕ
handshake_ok = 0x00

abbrev pub handshake_fail : ℕ
handshake_fail = 0xFF

abbrev pub uuid_length : ℕ
uuid_length = 16

-- internal/protocol/handshake.go. `now` is time.Now() at the call.
unfoldable pub write_handshake_request : ℕ → List ℕ → ℤ → M (Unit {0})
write_handshake_request now uuid timeout =
    if is_pos timeout
    then with_write_deadline now timeout (write (handshake_req ∷ uuid))
    else fail bad_timeout

request_body : M (List ℕ)
request_body = do
  typ ← read_full 1
  if byte_at typ 0 == handshake_req then read_full uuid_length else fail invalid_handshake

unfoldable pub read_handshake_request : ℕ → ℤ → M (List ℕ)
unfolding request_body
read_handshake_request now timeout =
    if is_pos timeout then with_read_deadline now timeout request_body else fail bad_timeout

unfoldable pub write_handshake_response : ℕ → ℕ → ℤ → M (Unit {0})
write_handshake_response now code timeout =
    if is_pos timeout
    then with_write_deadline now timeout (write (handshake_resp ∷ code ∷ []))
    else fail bad_timeout

response_body : M ℕ
response_body = do
  resp ← read_full 2
  if byte_at resp 0 == handshake_resp then return (byte_at resp 1) else fail invalid_handshake

unfoldable pub read_handshake_response : ℕ → ℤ → M ℕ
unfolding response_body
read_handshake_response now timeout =
    if is_pos timeout then with_read_deadline now timeout response_body else fail bad_timeout

-- writeSmuxOpenHeader of the client.
unfoldable pub write_smux_open_header : ℕ → ℕ → List ℕ → M (Unit {0})
write_smux_open_header kind strategy target =
    if ltb 65535 (length target) then fail target_too_long else do
      write (kind ∷ strategy ∷ put_uint16 (to_uint16 (length target)))
      if length target == 0 then return tt else write target

-- ReadSmuxOpenHeader: kind, strategy and target. What stands beside an error is dropped, as its
-- caller does.
unfoldable pub read_smux_open_header : M (ℕ × ℕ × List ℕ)
read_smux_open_header = do
  header ← read_full 4
  let tlen = uint16_at header 2
  if tlen == 0
      then return (byte_at header 0, byte_at header 1, [])
      else do buf ← read_full tlen; return (byte_at header 0, byte_at header 1, buf)

-- writeChunk of the client.
pub write_chunk : List ℕ → M (Unit {0})
write_chunk b =
    if leb 65536 (length b)
    then fail chunk_too_long
    else do write (put_uint16 (to_uint16 (length b))); if length b == 0 then return tt else write b

-- readChunk of the client and of the relay, and ReadChunk of the protocol: the three read the same
-- bytes and return the same data (binary.Read of a uint16 is a ReadFull of two bytes). nil is [].
pub read_chunk : M (List ℕ)
read_chunk = do h ← read_full 2; let n = uint16_at h 0; if n == 0 then return [] else read_full n

-- writeUDPReply of the relay and, with the same text, of the client.
pub write_udp_reply : List ℕ → List ℕ → M (Unit {0})
write_udp_reply addr payload = if ltb 65535 (length addr) then fail addr_too_long else do
  write (put_uint16 (to_uint16 (length addr)) ++ put_uint16 (to_uint16 (length payload)))
  if ltb 0 (length addr) then write addr else return tt
  if ltb 0 (length payload) then write payload else return tt

-- readUDPReply of the client.
pub read_udp_reply : M (List ℕ × List ℕ)
read_udp_reply = do
  head ← read_full 4
  let addr_len = uint16_at head 0
  let data_len = uint16_at head 2
  addr_raw ← if ltb 0 addr_len then read_full addr_len else return []
  payload ← if ltb 0 data_len then read_full data_len else return []
  return (addr_raw, payload)

-- WriteUDPReply of internal/protocol/stream.go: it writes no length of the data.
pub write_udp_reply_unsized : List ℕ → List ℕ → M (Unit {0})
write_udp_reply_unsized addr payload =
    if ltb 65535 (length addr)
    then fail addr_too_long
    else write (put_uint16 (to_uint16 (length addr)) ++ (addr ++ payload))

-- WriteUDPChunk and ReadUDPChunk.
pub write_udp_chunk : List ℕ → List ℕ → M (Unit {0})
write_udp_chunk addr payload =
    if ltb 65535 (length addr)
    then fail addr_too_long
    else write (
        put_uint16 (to_uint16 (length addr))
        ++ (addr ++ (put_uint16 (to_uint16 (length payload)) ++ payload)))

pub read_udp_chunk : M (List ℕ × List ℕ)
read_udp_chunk = do
  addr_len ← read_full 2
  addr ← read_full (uint16_at addr_len 0)
  data_len ← read_full 2
  payload ← read_full (uint16_at data_len 0)
  return (addr, payload)
