-- ===== src/Socks/Examples.antt =====
-- Packets, and the theorems at them.
use pisaller.Base.{
  ℕ, ◌≡◌, refl, sym, ap, List, [], ◌∷◌, ◌++◌, replicate, none, some, arith, length, Option,
}
use mathlib.Core.Option.{some-injective}
use pisaller.Base.Text.{contains, split_first}
use pisaller.Base.Parse.{done, ◌>>=◌, fails, byte, slice}
use pisaller.Address.{IpText, v4_prefix, to_4}
use pisaller.Socks.{
  parse_socks5_udp_packet, build_socks5_udp_packet, parse_auth_and_addr, bad_packet, short_port,
  read_address, read_domain, decimal,
}
use pisaller.Socks.RoundTrip.{build_socks5_udp_packet_round_trip}

-- A text form that stands for net.IP's: one byte spells the loopback address.
abbrev known : List ℕ → Option (List ℕ)
known (x ∷ []) = some (v4_prefix ++ (127 ∷ 0 ∷ 0 ∷ 1 ∷ []))
known _ = none

abbrev ips : IpText
ips = record { format = λ ip. ip; parse = known }

known-length : (h ip : List ℕ) → known h ≡ some ip → length ip ≡ 16
known-length [] ip e = absurd (cc e)
known-length (x ∷ []) ip e = sym (ap length (some-injective _ _ e))
known-length (x ∷ y ∷ h) ip e = absurd (cc e)

fragment : parse_socks5_udp_packet ips (0 ∷ 0 ∷ 1 ∷ 1 ∷ replicate 9 0) ≡ fails bad_packet
unfolding parse_socks5_udp_packet byte
fragment = refl

no_port : parse_socks5_udp_packet ips (0 ∷ 0 ∷ 0 ∷ 3 ∷ 5 ∷ replicate 5 0x61) ≡ fails short_port
unfolding parse_socks5_udp_packet byte read_address read_domain slice
no_port = refl

-- "u:p@h" and "h".
with_user :
    parse_auth_and_addr (0x75 ∷ 0x3a ∷ 0x70 ∷ 0x40 ∷ 0x68 ∷ []) ≡ (0x68 ∷ [], 0x75 ∷ [], 0x70 ∷ [])
unfolding parse_auth_and_addr contains split_first
with_user = refl

build_socks5_udp_packet_round_trip_example :
    (build_socks5_udp_packet ips (1 ∷ []) 8080 (7 ∷ 8 ∷ []) >>= parse_socks5_udp_packet ips)
    ≡ done (127 ∷ 0 ∷ 0 ∷ 1 ∷ 0x3a ∷ 0x38 ∷ 0x30 ∷ 0x38 ∷ 0x30 ∷ [], 7 ∷ 8 ∷ [])
unfolding to_4 decimal
build_socks5_udp_packet_round_trip_example =
    build_socks5_udp_packet_round_trip ips (1 ∷ []) (7 ∷ 8 ∷ []) 8080 (known-length (1 ∷ []))
      (omega arith) (omega arith) (omega arith)
