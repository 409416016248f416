-- ===== src/Socks5.antt =====
-- The SOCKS5 handshake of cmd/client/main.go: handleSOCKS5, handleSOCKS5UserPassAuth, and the reply
-- of handleSOCKS5Connect. A handler that returns early is an error here; its connection is closed.
pub mod Auth
pub mod Request
pub mod Connect
mod Examples
use pisaller.Base.{
  ℕ, ◌+◌, ◌*◌, ◌≡◌, Bool, true, false, ◌&&◌, ◌||◌, Option, none, some, List, [], ◌∷◌, ◌++◌, length,
  take, drop, replicate, ◌==◌, if◌then◌else◌, Error, failure, Result, ok, err,
}
use pisaller.Base.Bytes.{byte_at, uint16_at}
use pisaller.Base.Text.{list_eq, contains, split_host_port, join_host_port}
use pisaller.Stream.{Conn, M, ◌>>=◌, ◌>>◌, bind_result, return, fail, read_full, write}
use pisaller.Address.{IpText, to_4}
use pisaller.Protocol.{ip_strategy_ipv4_only, ip_strategy_ipv6_only}
use pisaller.Socks.{port_text}

-- A handler gave up.
abbrev pub refused : Error
refused = failure 30

pub record ProxyConfig : Type 0 where
  pub username : List ℕ
  pub password : List ℕ
  pub host : List ℕ

-- `_, _ = c.Write(p)`
unfoldable pub write_quiet : List ℕ → M (Unit {0})
write_quiet p c = (ok tt, (write p c).1)

-- `_, _ = io.ReadFull(c, b)` into a zeroed buffer of `n` bytes: what is missing stays zero.
pub read_padded : ℕ → M (List ℕ)
read_padded n c = (ok (take n (c.input ++ replicate n 0)), record c { input = drop n c.input })

-- SetDeadline(now + timeout), for a timeout that is not negative, and SetDeadline(time.Time{}).
abbrev pub set_deadline : Option ℕ → M (Unit {0})
set_deadline t c = (ok tt, record c { read_deadline = t; write_deadline = t })

-- handleSOCKS5UserPassAuth
pub user_pass_auth : ProxyConfig → M (Unit {0})
user_pass_auth cfg = do
  b ← read_full 2
  if byte_at b 0 == 0x01
      then (do
        u ← read_full (byte_at b 1)
        l ← read_full 1
        p ← read_full (byte_at l 0)
        if list_eq u cfg.username && list_eq p cfg.password
            then write_quiet (0x01 ∷ 0x00 ∷ [])
            else (write_quiet (0x01 ∷ 0x01 ∷ []) >> fail refused))
      else (write_quiet (0x01 ∷ 0x01 ∷ []) >> fail refused)

-- The choice of a method. It is 0xFF if the client does not offer the one that is wanted.
pub choose_method : ProxyConfig → List ℕ → M (Unit {0})
choose_method cfg methods =
    if length cfg.username == 0
    then if contains 0x00 methods
      then write_quiet (0x05 ∷ 0x00 ∷ [])
      else (write_quiet (0x05 ∷ 0xFF ∷ []) >> fail refused)
    else if contains 0x02 methods
    then (write_quiet (0x05 ∷ 0x02 ∷ []) >> user_pass_auth cfg)
    else (write_quiet (0x05 ∷ 0xFF ∷ []) >> fail refused)

-- The greeting.
pub negotiate : ProxyConfig → M (Unit {0})
negotiate cfg = do
  buf ← read_full 2
  if byte_at buf 0 == 0x05
      then (do methods ← read_full (byte_at buf 1); choose_method cfg methods)
      else fail refused

-- The switch on the address type: the target's host.
pub read_target : IpText → ℕ → M (List ℕ)
read_target ips kind =
    if kind == 0x01
    then (do b ← read_padded 4; return (ips.format b))
    else if kind == 0x03
    then (do b ← read_padded 1; read_padded (byte_at b 0))
    else if kind == 0x04
    then (do b ← read_padded 16; return (ips.format b))
    else return []

-- net.ParseIP of the host of a target; a target that does not split has the empty host.
abbrev pub host_of : Option (List ℕ × List ℕ) → List ℕ
host_of none = []
host_of (some (h, p)) = h

-- `ip != nil && ip.To4() == nil`, and `ip != nil && ip.To4() != nil`
abbrev pub is_6 : Option (List ℕ) → Bool
is_6 none = false
is_6 (some ip) = elim (to_4 ip) [ none ↦ true | some v ↦ false ]

abbrev pub is_4 : Option (List ℕ) → Bool
is_4 none = false
is_4 (some ip) = elim (to_4 ip) [ none ↦ false | some v ↦ true ]

-- The strategy's two tests.
pub is_barred : ℕ → ℕ → Option (List ℕ) → Bool
is_barred strategy kind ip =
    (strategy == ip_strategy_ipv4_only && (kind == 0x04 || is_6 ip))
    || (strategy == ip_strategy_ipv6_only && (kind == 0x01 || is_4 ip))

abbrev pub refusal : ℕ → List ℕ
refusal kind = 0x05 ∷ 0x02 ∷ 0x00 ∷ kind ∷ (if kind == 0x04 then replicate 18 0 else replicate 6 0)

-- What follows: a connection to a target, a UDP association, or nothing for any other command.
pub data Command : Type 0 where
  connect : List ℕ → Command
  associate : Command
  unknown : Command

abbrev pub command : ℕ → List ℕ → Command
command cmd target =
    if cmd == 0x01 then connect target else if cmd == 0x03 then associate else unknown

-- The request, under the strategy.
pub read_request : IpText → ℕ → M Command
read_request ips strategy = do
  head ← read_full 4
  host ← read_target ips (byte_at head 3)
  pb ← read_padded 2
  let target = join_host_port host (port_text (uint16_at pb 0))
  if is_barred strategy (byte_at head 3) (ips.parse (host_of (split_host_port target)))
      then (write_quiet (refusal (byte_at head 3)) >> fail refused)
      else (set_deadline none >> return (command (byte_at head 1) target))

-- handleSOCKS5 up to the command.
pub handle_socks5 : IpText → ℕ → ℕ → ℕ → ProxyConfig → M Command
handle_socks5 ips now timeout strategy cfg = do
  set_deadline (some (now + timeout))
  negotiate cfg
  read_request ips strategy

-- The reply of handleSOCKS5Connect, which is sent before the stream is opened.
abbrev pub connect_reply : List ℕ
connect_reply = 0x05 ∷ 0x00 ∷ 0x00 ∷ 0x01 ∷ replicate 6 0
