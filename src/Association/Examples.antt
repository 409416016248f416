-- ===== src/Association/Examples.antt =====
-- Runs of an association, and the theorems at them.
use pisaller.Base.{
  ℕ, ◌≡◌, refl, List, [], ◌∷◌, none, some, true, eof, failure, ok, err, arith, Option,
}
use pisaller.Stream.{Conn}
use pisaller.Address.{IpText}
use pisaller.Protocol.{write_smux_open_header}
use pisaller.Association.{new_association, close_association, send, bound_reply}
use pisaller.Association.Steps.{System, start, Reach, here, next, takes, closes, taken}
use pisaller.Association.Binding.{bound, handle_socks5_udp}
use pisaller.Association.Invariant.{IsSafe, Reach-IsSafe}
use pisaller.Association.Target.{first_two, relay_reads, first_two_misdirects}

abbrev nothing : List ℕ → Option (List ℕ)
nothing _ = none

abbrev no_number : List ℕ → Option ℕ
no_number _ = none

abbrev ips : IpText
ips = record { format = λ ip. ip; parse = nothing }

abbrev fresh : Conn
fresh = record {
  input = [];
  ending = eof;
  output = [];
  faults = [];
  read_deadline = none;
  write_deadline = none;
}

-- No channel: the first datagram ends the association.
no_channel : (send (1 ∷ []) [] (err (failure 20)) new_association).1.tcp_shut ≡ true
unfolding send new_association
no_channel = refl

-- A second close changes nothing.
twice : close_association (close_association new_association) ≡ close_association new_association
unfolding close_association new_association
twice = refl

abbrev two_steps : System
two_steps = taken ips 0 (7 ∷ []) [] (record start { assoc = close_association new_association })

two_steps-Reach : Reach ips no_number 0 two_steps
unfolding new_association close_association
two_steps-Reach = next (next here closes) (takes (7 ∷ []) [] refl refl)

Reach-IsSafe_example : IsSafe two_steps.assoc
Reach-IsSafe_example = Reach-IsSafe ips no_number 0 two_steps-Reach

first_two_misdirects_example :
    let b =
      first_two
        (1 ∷ [])
        (5 ∷ [])
        (2 ∷ [])
        (6 ∷ [])
        4
        (write_smux_open_header 3 0 (1 ∷ []) fresh).1
        new_association in
    (out : Conn) × (b.wire ≡ some out)
    × (b.target ≡ 2 ∷ [])
    × (relay_reads (record fresh { input = out.output })
        ≡ (ok ((3, 0, 1 ∷ []), 5 ∷ [], 6 ∷ []), fresh))
unfolding new_association
first_two_misdirects_example =
    first_two_misdirects (1 ∷ []) (5 ∷ []) (2 ∷ []) (6 ∷ []) 0 4 fresh fresh new_association refl
      refl (omega arith) (omega arith) (omega arith) refl refl

-- The listener at 127.0.0.1:1080, and a client that takes the reply.
localhost :
    (handle_socks5_udp (bound (127 ∷ 0 ∷ 0 ∷ 1 ∷ []) 1080) fresh).tcp.output
    ≡ 5 ∷ 0 ∷ 0 ∷ 1 ∷ 127 ∷ 0 ∷ 0 ∷ 1 ∷ 4 ∷ 56 ∷ []
unfolding handle_socks5_udp bound_reply pisaller.Stream.write pisaller.Stream.write_by
    pisaller.Address.to_4
localhost = refl
