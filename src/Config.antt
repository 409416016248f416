-- ===== src/Config.antt =====
-- internal/config/config.go: the defaults of a configuration, and the names of the strategies. A
-- time.Duration is a number of nanoseconds.
pub mod Defaults
pub mod Loading
mod Examples
use pisaller.Base.{
  ℕ, zero, suc, ◌≡◌, Bool, true, false, List, [], ◌∷◌, ◌++◌, length, ◌==◌, ◌*◌, if◌then◌else◌,
}
use pisaller.Base.Int.{ℤ, pos, negsuc, is_pos}
use pisaller.Base.Text.{list_eq}
use pisaller.Protocol.{
  ip_strategy_ipv4_only, ip_strategy_ipv6_only, ip_strategy_ipv4_prefer, ip_strategy_ipv6_prefer,
}

pub record CommonConfig : Type 0 where
  pub dial_timeout : ℤ
  pub keep_alive : ℤ
  pub up_pack : ℤ
  pub chunk_ms : ℤ
  pub concur : ℤ
  pub max_queue_bytes : ℤ
  pub read_buf : ℤ
  pub utls_fingerprint : List ℕ
  pub fallback : Bool
  pub dns_server : List ℕ
  pub ech_domain : List ℕ
  pub insecure : Bool
  pub token : List ℕ
  pub ip_override : List ℕ

-- The server's own numbers.
pub record DnConfig : Type 0 where
  pub dn_pack : ℤ
  pub dn_tail : ℤ
  pub dn_qr : ℤ

abbrev pub second : ℕ
second = 1000000000

-- "chrome_120"
abbrev pub chrome_120 : List ℕ
chrome_120 = b'c' ∷ b'h' ∷ b'r' ∷ b'o' ∷ b'm' ∷ b'e' ∷ b'_' ∷ b'1' ∷ b'2' ∷ b'0' ∷ []

-- "https://doh.pub/dns-query"
abbrev pub doh_pub : List ℕ
doh_pub =
    b'h' ∷ b't' ∷ b't' ∷ b'p' ∷ b's' ∷ b':' ∷ b'/' ∷ b'/' ∷ b'd' ∷ b'o' ∷ b'h' ∷ b'.' ∷ b'p' ∷ b'u'
    ∷ b'b' ∷ b'/' ∷ b'd' ∷ b'n' ∷ b's' ∷ b'-' ∷ b'q' ∷ b'u' ∷ b'e' ∷ b'r' ∷ b'y' ∷ []

-- "cloudflare-ech.com"
abbrev pub cloudflare_ech : List ℕ
cloudflare_ech =
    b'c' ∷ b'l' ∷ b'o' ∷ b'u' ∷ b'd' ∷ b'f' ∷ b'l' ∷ b'a' ∷ b'r' ∷ b'e' ∷ b'-' ∷ b'e' ∷ b'c' ∷ b'h'
    ∷ b'.' ∷ b'c' ∷ b'o' ∷ b'm' ∷ []

-- `if x == 0 { x = d }`, `if s == "" { s = d }` and `if x <= 0 { x = d }`
abbrev pub or_number : ℤ → ℕ → ℤ
or_number (pos zero) d = pos d
or_number (pos (suc n)) d = pos (suc n)
or_number (negsuc n) d = negsuc n

abbrev pub or_text : List ℕ → List ℕ → List ℕ
or_text [] d = d
or_text (b ∷ s) d = b ∷ s

abbrev pub or_positive : ℤ → ℕ → ℤ
or_positive x d = if is_pos x then x else pos d

unfoldable pub set_common_defaults : CommonConfig → CommonConfig
set_common_defaults c = record c {
  dial_timeout = or_number c.dial_timeout (10 * second);
  keep_alive = or_number c.keep_alive (30 * second);
  up_pack = or_number c.up_pack (20 * 1024);
  chunk_ms = or_number c.chunk_ms 20;
  concur = or_number c.concur 2;
  max_queue_bytes = or_number c.max_queue_bytes (128 * 1024);
  read_buf = or_number c.read_buf (64 * 1024);
  utls_fingerprint = or_text c.utls_fingerprint chrome_120;
  dns_server = or_text c.dns_server doh_pub;
  ech_domain = or_text c.ech_domain cloudflare_ech;
}

-- The same of LoadServerConfig.
pub set_dn_defaults : DnConfig → DnConfig
set_dn_defaults c = record {
  dn_pack = or_positive c.dn_pack 32768;
  dn_tail = or_positive c.dn_tail 512;
  dn_qr = or_positive c.dn_qr 4;
}

-- "ipv4" or "ipv6", and what follows it.
abbrev pub family_text : ℕ → List ℕ → List ℕ
family_text digit rest = b'i' ∷ b'p' ∷ b'v' ∷ digit ∷ b'_' ∷ rest

abbrev pub only : List ℕ
only = b'o' ∷ b'n' ∷ b'l' ∷ b'y' ∷ []

abbrev pub preferred : List ℕ
preferred = b'p' ∷ b'r' ∷ b'e' ∷ b'f' ∷ b'e' ∷ b'r' ∷ []

pub parse_strategy : List ℕ → ℕ
parse_strategy s =
    if list_eq s (family_text b'4' only)
    then ip_strategy_ipv4_only
    else if list_eq s (family_text b'6' only)
    then ip_strategy_ipv6_only
    else if list_eq s (family_text b'4' preferred)
    then ip_strategy_ipv4_prefer
    else if list_eq s (family_text b'6' preferred)
    then ip_strategy_ipv6_prefer
    else ip_strategy_ipv4_prefer
