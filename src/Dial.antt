-- ===== src/Dial.antt =====
-- internal/relay/dial.go: which addresses of a target are dialled, and in which order. net.ParseIP
-- and the resolver are parameters: `parse` gives the address that a host spells, and `lookup` the
-- resolver's answer for a name.
pub mod Strategy
pub mod Dialling
mod Examples
use pisaller.Base.{
  ℕ, zero, suc, ◌+◌, ◌%◌, ◌≡◌, Bool, true, false, not, Option, none, some, List, [], ◌∷◌, ◌++◌,
  length, ◌==◌, ltb, if◌then◌else◌, Result, ok, err, get_elem?,
}
use pisaller.Address.{to_4}
use pisaller.Protocol.{
  ip_strategy_ipv4_only, ip_strategy_ipv6_only, ip_strategy_ipv4_prefer, ip_strategy_ipv6_prefer,
}

pub record Resolver : Type 0 where
  pub parse : List ℕ → Option (List ℕ)
  pub lookup : List ℕ → Result (List (List ℕ))

-- `ip.To4() != nil`
abbrev pub has_4 : Option (List ℕ) → Bool
has_4 none = false
has_4 (some v) = true

abbrev pub is_v4 : List ℕ → Bool
is_v4 ip = has_4 (to_4 ip)

pub filter_ipv4 : List (List ℕ) → List (List ℕ)
filter_ipv4 [] = []
filter_ipv4 (ip ∷ ips) = let rest = filter_ipv4 ips in if is_v4 ip then ip ∷ rest else rest

pub filter_ipv6 : List (List ℕ) → List (List ℕ)
filter_ipv6 [] = []
filter_ipv6 (ip ∷ ips) = let rest = filter_ipv6 ips in if is_v4 ip then rest else ip ∷ rest

-- The switch for a host that spells an address.
pub literal_ips : ℕ → List ℕ → List (List ℕ)
literal_ips strategy ip =
    if strategy == ip_strategy_ipv4_only
    then if is_v4 ip then ip ∷ [] else []
    else if strategy == ip_strategy_ipv6_only
    then if is_v4 ip then [] else ip ∷ []
    else ip ∷ []

abbrev pub prefer : List (List ℕ) → List (List ℕ) → List (List ℕ)
prefer first second = if ltb 0 (length first) then first ++ second else second

-- The switch for the resolver's answer.
pub order_ips : ℕ → List (List ℕ) → List (List ℕ)
order_ips strategy ips =
    if strategy == ip_strategy_ipv4_only
    then filter_ipv4 ips
    else if strategy == ip_strategy_ipv6_only
    then filter_ipv6 ips
    else if strategy == ip_strategy_ipv4_prefer
    then prefer (filter_ipv4 ips) (filter_ipv6 ips)
    else if strategy == ip_strategy_ipv6_prefer
    then prefer (filter_ipv6 ips) (filter_ipv4 ips)
    else ips

abbrev pub looked_up : ℕ → Result (List (List ℕ)) → List (List ℕ)
looked_up strategy (ok ips) = order_ips strategy ips
looked_up strategy (err e) = []

abbrev pub resolve_with : Resolver → List ℕ → ℕ → Option (List ℕ) → List (List ℕ)
resolve_with net host strategy (some ip) = literal_ips strategy ip
resolve_with net host strategy none = looked_up strategy (net.lookup host)

-- resolveIPsForDial
pub resolve_ips_for_dial : Resolver → List ℕ → ℕ → List (List ℕ)
resolve_ips_for_dial net host strategy = resolve_with net host strategy (net.parse host)

-- The race of DialTCPWithRace: the connections that its goroutines made, in the order in which they
-- come out of the channel; the first is kept, and every other one is closed.
pub collect : Option ℕ → List ℕ → List ℕ → Option ℕ × List ℕ
collect winner shut [] = (winner, shut)
collect none shut (conn ∷ conns) = collect (some conn) shut conns
collect (some w) shut (conn ∷ conns) = collect (some w) (shut ++ (conn ∷ [])) conns

-- The address that the `i`-th goroutine dials: `ips[i%len(ips)]`.
pub race_address : List (List ℕ) → ℕ → Option (List ℕ)
race_address ips i = get_elem? ips (i % length ips)
