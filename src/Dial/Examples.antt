-- ===== src/Dial/Examples.antt =====
-- A resolver with two answers, and the theorems at it.
use pisaller.Base.{
  ℕ, ◌≡◌, refl, List, [], ◌∷◌, ◌++◌, length, replicate, none, ok, err, Option, Result, arith, ◌==◌,
  if◌then◌else◌,
}
use pisaller.Base.Int.{pos}
use pisaller.Base.Text.{split_host_port, split_last_colon, contains}
use pisaller.Dial.Dialling.{
  Net, Family, Racer, lost, arrives, withdraws, unreachable, or_else, dial_ips,
  dial_tcp_with_strategy, dial_tcp_with_race,
}
use pisaller.Dial.Dialling.Order.{dial_tcp_with_strategy-prefer}
use pisaller.Dial.Dialling.Race.{made, returned, dial_tcp_with_race-closes}
use pisaller.Address.{v4_prefix, to_4}
use mathlib.Core.List.{Perm}
use pisaller.Dial.{Resolver, resolve_ips_for_dial, order_ips, filter_ipv4, filter_ipv6}

abbrev six : List ℕ
six = replicate 16 1

abbrev four : List ℕ
four = v4_prefix ++ (10 ∷ 0 ∷ 0 ∷ 1 ∷ [])

abbrev no_literal : List ℕ → Option (List ℕ)
no_literal _ = none

abbrev net : Resolver
net = record { parse = no_literal; lookup = λ h. ok (six ∷ four ∷ []) }

four_first : resolve_ips_for_dial net (0x61 ∷ []) 0x03 ≡ four ∷ six ∷ []
unfolding resolve_ips_for_dial order_ips filter_ipv4 filter_ipv6 to_4
four_first = refl

abbrev arrived : List ℕ
arrived = 3 ∷ 1 ∷ []

-- "a:5"
abbrev name_5 : List ℕ
name_5 = b'a' ∷ b':' ∷ b'5' ∷ []

-- Of the attempts, the second one is answered.
abbrev second_time : ℕ → Family → List ℕ → Result ℕ
second_time i network address = if i == 1 then ok 7 else err unreachable

abbrev dialler : Net
dialler = record { resolver = net; format = λ ip. ip; attempt = second_time }

falls_back : dial_tcp_with_strategy dialler name_5 0x03 ≡ ok 7
unfolding dial_tcp_with_strategy split_host_port split_last_colon contains resolve_ips_for_dial
    order_ips filter_ipv4 filter_ipv6 to_4 dial_ips
falls_back = refl

dial_tcp_with_strategy-prefer_example :
    (dial_tcp_with_strategy dialler name_5 0x03
      ≡ or_else
          (dial_ips dialler (b'5' ∷ []) 0 (four ∷ []))
          (dial_ips dialler (b'5' ∷ []) (length (four ∷ [])) (six ∷ [])))
    × (dial_tcp_with_strategy dialler name_5 0x04
        ≡ or_else
            (dial_ips dialler (b'5' ∷ []) 0 (six ∷ []))
            (dial_ips dialler (b'5' ∷ []) (length (six ∷ [])) (four ∷ [])))
unfolding split_host_port split_last_colon contains
dial_tcp_with_strategy-prefer_example =
    dial_tcp_with_strategy-prefer dialler name_5 (b'a' ∷ []) (b'5' ∷ []) (six ∷ four ∷ []) refl refl
      refl

abbrev racers : List Racer
racers = lost ∷ arrives 9 ∷ withdraws 4 ∷ arrives 2 ∷ []

dial_tcp_with_race-closes_example :
    let r = dial_tcp_with_race dialler name_5 0x03 (pos 4) (pos 1) racers in
    Perm (returned r.0 ++ r.1) (made racers)
unfolding split_host_port split_last_colon contains resolve_ips_for_dial order_ips filter_ipv4
    filter_ipv6 to_4
dial_tcp_with_race-closes_example =
    dial_tcp_with_race-closes dialler name_5 (b'a' ∷ []) (b'5' ∷ []) 0x03 4 (pos 1) racers refl
      (λ e. absurd (cc e)) refl (omega arith)
