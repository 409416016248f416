-- ===== src/Dial/Dialling.antt =====
-- DialTCPWithStrategy and DialTCPWithRace of internal/relay/dial.go. What the network answers is a
-- parameter: `attempt i network address` is the outcome of the i-th net.DialTimeout of a call.
pub mod Order
pub mod Race
use pisaller.Base.{
  ℕ, zero, suc, ◌+◌, ◌≡◌, Bool, true, false, ◌||◌, Option, none, some, List, [], ◌∷◌, ◌++◌, length,
  ◌==◌, leb, if◌then◌else◌, Error, failure, Result, ok, err,
}
use pisaller.Base.Int.{ℤ, pos, negsuc, is_pos, to_ℕ}
use pisaller.Base.Text.{split_host_port, join_host_port}
use pisaller.Protocol.{
  ip_strategy_ipv4_only, ip_strategy_ipv6_only, ip_strategy_ipv4_prefer, ip_strategy_ipv6_prefer,
}
use pisaller.Dial.{Resolver, resolve_ips_for_dial, collect}

abbrev pub unreachable : Error
unreachable = failure 60

abbrev pub bad_argument : Error
bad_argument = failure 61

abbrev pub bad_address : Error
bad_address = failure 62

abbrev pub unresolved : Error
unresolved = failure 63

-- The networks "tcp", "tcp4" and "tcp6".
pub data Family : Type 0 where
  any : Family
  only_v4 : Family
  only_v6 : Family

abbrev pub Attempts : Type 0
Attempts = ℕ → Family → List ℕ → Result ℕ

-- What a dial needs: the resolver, the text of an address, and the network.
pub record Net : Type 0 where
  pub resolver : Resolver
  pub format : List ℕ → List ℕ
  pub attempt : Attempts

-- The loop over the addresses, from the `i`-th attempt on.
abbrev pub or_else : Result ℕ → Result ℕ → Result ℕ
or_else (ok conn) rest = ok conn
or_else (err e) rest = rest

unfoldable pub dial_ips : Net → List ℕ → ℕ → List (List ℕ) → Result ℕ
dial_ips net port i [] = err unreachable
dial_ips net port i (ip ∷ ips) =
    or_else (net.attempt i any (join_host_port (net.format ip) port))
      (dial_ips net port (i + 1) ips)

abbrev pub dial_name : Net → List ℕ → List ℕ → List ℕ → ℕ → Result ℕ
dial_name net addr host port strategy =
    if strategy == ip_strategy_ipv4_only
    then net.attempt 0 only_v4 addr
    else if strategy == ip_strategy_ipv6_only
    then net.attempt 0 only_v6 addr
    else if strategy == ip_strategy_ipv4_prefer || strategy == ip_strategy_ipv6_prefer
    then dial_ips net port 0 (resolve_ips_for_dial net.resolver host strategy)
    else net.attempt 0 any addr

abbrev pub dial_host : Net → List ℕ → ℕ → List ℕ → List ℕ → Option (List ℕ) → Result ℕ
dial_host net addr strategy host port (some ip) = net.attempt 0 any addr
dial_host net addr strategy host port none = dial_name net addr host port strategy

abbrev pub dial_parts : Net → List ℕ → ℕ → Option (List ℕ × List ℕ) → Result ℕ
dial_parts net addr strategy none = net.attempt 0 any addr
dial_parts net addr strategy (some (host, port)) =
    dial_host net addr strategy host port (net.resolver.parse host)

-- DialTCPWithStrategy
unfoldable pub dial_tcp_with_strategy : Net → List ℕ → ℕ → Result ℕ
dial_tcp_with_strategy net addr strategy = dial_parts net addr strategy (split_host_port addr)

-- How a goroutine of the race ends, in the order of their ends: its dial fails, its connection goes
-- into the channel, or it sees the end of the context and closes its connection.
pub data Racer : Type 0 where
  lost : Racer
  arrives : ℕ → Racer
  withdraws : ℕ → Racer

-- What comes out of the channel, what the goroutines close, and what they have made.
pub arrived : List Racer → List ℕ
arrived [] = []
arrived (lost ∷ rs) = arrived rs
arrived (arrives conn ∷ rs) = conn ∷ arrived rs
arrived (withdraws conn ∷ rs) = arrived rs

pub withdrawn : List Racer → List ℕ
withdrawn [] = []
withdrawn (lost ∷ rs) = withdrawn rs
withdrawn (arrives conn ∷ rs) = withdrawn rs
withdrawn (withdraws conn ∷ rs) = conn ∷ withdrawn rs

abbrev pub winner_of : Option ℕ → Result ℕ
winner_of none = err unreachable
winner_of (some conn) = ok conn

-- The race: its result, and the connections that are closed.
abbrev pub race : List Racer → Result ℕ × List ℕ
race rs = let out = collect none [] (arrived rs) in (winner_of out.0, out.1 ++ withdrawn rs)

abbrev pub race_ips : List (List ℕ) → List Racer → Result ℕ × List ℕ
race_ips [] rs = (err unresolved, [])
race_ips (ip ∷ ips) rs = race rs

abbrev pub race_parts : Net → ℕ → List Racer → Option (List ℕ × List ℕ) → Result ℕ × List ℕ
race_parts net strategy rs none = (err bad_address, [])
race_parts net strategy rs (some (host, port)) =
    race_ips (resolve_ips_for_dial net.resolver host strategy) rs

-- DialTCPWithRace, for a race that would go like `rs`.
pub dial_tcp_with_race : Net → List ℕ → ℕ → ℤ → ℤ → List Racer → Result ℕ × List ℕ
unfolding dial_tcp_with_strategy
dial_tcp_with_race net addr strategy concur timeout rs =
    if is_pos concur
    then if is_pos timeout
      then if leb (to_ℕ concur) 1
        then (dial_tcp_with_strategy net addr strategy, [])
        else race_parts net strategy rs (split_host_port addr)
      else (err bad_argument, [])
    else (err bad_argument, [])
