-- ===== src/Socks.antt =====
-- The SOCKS5 side of cmd/client/main.go: the UDP packets of a client, the choice of an
-- authentication method with the user and password check, and the address with credentials of the
-- configuration. net.IP's text form and its parser are the parameter `ips`.
pub mod Packets
pub mod RoundTrip
mod Examples
use pisaller.Base.{
  ℕ, zero, suc, ◌+◌, ◌*◌, ◌/◌, ◌%◌, ◌≡◌, Bool, true, false, ◌&&◌, ◌||◌, Option, none, some, List,
  [], ◌∷◌, ◌++◌, length, take, drop, replicate, leb, ltb, ◌==◌, if◌then◌else◌, Error, failure,
}
use pisaller.Address.{IpText, to_4}
use pisaller.Base.Text.{contains, split_first}
use pisaller.Base.Parse.{Parse, done, fails, ◌>>=◌, byte, word, slice}

-- The decimal digits of a number, with one digit for each unit of fuel; a port has five at most.
unfoldable pub decimal : ℕ → ℕ → List ℕ
decimal zero n = []
decimal (suc fuel) n =
    let rest = decimal fuel (n / 10) in
    if ltb n 10 then (n + b'0') ∷ [] else rest ++ ((n % 10 + b'0') ∷ [])

abbrev pub port_text : ℕ → List ℕ
port_text p = decimal 5 p

-- The errors of the two functions on packets.
abbrev pub bad_packet : Error
bad_packet = failure 10

abbrev pub short_v4 : Error
short_v4 = failure 11

abbrev pub short_domain : Error
short_domain = failure 12

abbrev pub short_v6 : Error
short_v6 = failure 13

abbrev pub bad_address_type : Error
bad_address_type = failure 14

abbrev pub short_port : Error
short_port = failure 15

abbrev pub domain_too_long : Error
domain_too_long = failure 16

-- The three address forms: the host's text and the offset behind it.
pub read_v4 : IpText → List ℕ → Parse (List ℕ × ℕ)
read_v4 ips b =
    if ltb (length b) 8 then fails short_v4 else (slice b 4 4 >>= λ ip. done (ips.format ip, 8))

pub read_domain : List ℕ → Parse (List ℕ × ℕ)
read_domain b =
    if ltb (length b) 5
    then fails short_domain
    else (byte b 4 >>= λ l.
        if ltb (length b) (5 + l)
        then fails short_domain
        else (slice b 5 l >>= λ h. done (h, 5 + l)))

pub read_v6 : IpText → List ℕ → Parse (List ℕ × ℕ)
read_v6 ips b =
    if ltb (length b) 20 then fails short_v6 else (slice b 4 16 >>= λ ip. done (ips.format ip, 20))

pub read_address : IpText → List ℕ → ℕ → Parse (List ℕ × ℕ)
read_address ips b kind =
    if kind == 0x01
    then read_v4 ips b
    else if kind == 0x03
    then read_domain b
    else if kind == 0x04
    then read_v6 ips b
    else fails bad_address_type

-- `%s:%d`, and `[%s]:%d` for an IPv6 address.
abbrev pub target_text : ℕ → List ℕ → ℕ → List ℕ
target_text kind h p =
    if kind == 0x04 then b'[' ∷ (h ++ (b']' ∷ b':' ∷ port_text p)) else h ++ (b':' ∷ port_text p)

-- parseSOCKS5UDPPacket: the target and the data. The length test stands before the read of b[2].
pub parse_socks5_udp_packet : IpText → List ℕ → Parse (List ℕ × List ℕ)
parse_socks5_udp_packet ips b = if ltb (length b) 10 then fails bad_packet else do
  frag ← byte b 2
  if frag == 0
      then (do
        kind ← byte b 3
        (h, off) ← read_address ips b kind
        if ltb (length b) (off + 2)
            then fails short_port
            else do p ← word b off; done (target_text kind h p, drop (off + 2) b))
      else fails bad_packet

abbrev pub ip_bytes : List ℕ → Option (List ℕ) → List ℕ
ip_bytes ip (some ip4) = 0x01 ∷ ip4
ip_bytes ip none = 0x04 ∷ ip

abbrev pub address_bytes : List ℕ → Option (List ℕ) → List ℕ
address_bytes h none = 0x03 ∷ length h % 256 ∷ h
address_bytes h (some ip) = ip_bytes ip (to_4 ip)

-- buildSOCKS5UDPPacket, for a port that is no negative number.
pub build_socks5_udp_packet : IpText → List ℕ → ℕ → List ℕ → Parse (List ℕ)
build_socks5_udp_packet ips h p d =
    if ltb 255 (length h)
    then fails domain_too_long
    else done (0 ∷ 0 ∷ 0 ∷ (address_bytes h (ips.parse h) ++ (p / 256 % 256 ∷ p % 256 ∷ d)))

abbrev pub credentials : List ℕ → List ℕ × List ℕ
credentials auth = if contains b':' auth then split_first b':' auth else ([], [])

-- parseAuthAndAddr: address, user and password. SplitN gives two parts where the text contains the
-- separator, so its error is never returned.
unfoldable pub parse_auth_and_addr : List ℕ → List ℕ × List ℕ × List ℕ
parse_auth_and_addr full =
    let parts = split_first b'@' full in
    let up = credentials parts.0 in
    if contains b'@' full then (parts.1, up.0, up.1) else (full, [], [])
