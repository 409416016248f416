-- ===== src/Dial/Dialling/Race.antt =====
-- What becomes of the connections of DialTCPWithRace.
use mathlib.Core.List.{Perm, perm_middle}
use mathlib.Core.List.Perm
use pisaller.Base.{
  ℕ, zero, suc, ◌≤◌, inl, inr, ◌≡◌, ◌≢◌, refl, true, none, some, List, [], ◌∷◌, ◌++◌, arith, lt→leb,
  Result, ok, err,
}
use pisaller.Base.Int.{ℤ, pos, is_pos}
use pisaller.Base.Text.{split_host_port}
use pisaller.Dial.{collect, resolve_ips_for_dial}
use pisaller.Dial.Strategy.{collect_first}
use pisaller.Dial.Dialling.{
  Net, Racer, lost, arrives, withdraws, arrived, withdrawn, race, race_ips, winner_of,
  dial_tcp_with_race,
}

-- The connections that the goroutines have made.
pub made : List Racer → List ℕ
made [] = []
made (lost ∷ rs) = made rs
made (arrives conn ∷ rs) = conn ∷ made rs
made (withdraws conn ∷ rs) = conn ∷ made rs

abbrev pub returned : Result ℕ → List ℕ
returned (ok conn) = conn ∷ []
returned (err e) = []

made-perm : (rs : List Racer) → Perm (arrived rs ++ withdrawn rs) (made rs)
unfolding made arrived withdrawn
made-perm [] = Perm.nil
made-perm (lost ∷ rs) = made-perm rs
made-perm (arrives conn ∷ rs) = Perm.cons conn (made-perm rs)
made-perm (withdraws conn ∷ rs) =
    Perm.trans (perm_middle (arrived rs) (withdrawn rs)) (Perm.cons conn (made-perm rs))

race-arrived : (rs : List Racer) → returned (race rs).0 ++ (race rs).1 ≡ arrived rs ++ withdrawn rs
race-arrived rs = go (arrived rs)
  where
    go :
        (conns : List ℕ)
        → returned (winner_of (collect none [] conns).0)
            ++ ((collect none [] conns).1 ++ withdrawn rs)
          ≡ conns ++ withdrawn rs
    go conns = elim (collect_first conns) [
      | inl (e, c) ↦ rw c (rw e refl)
      | inr (w, rest, e, c) ↦ rw c (rw e refl)
    ]

is_pos-pos : (n : ℕ) → 1 ≤ n → is_pos (pos n) ≡ true
is_pos-pos zero h = absurd (omega arith)
is_pos-pos (suc n) h = refl

race_ips-nonempty : (ips : List (List ℕ)) (rs : List Racer) → ips ≢ [] → race_ips ips rs ≡ race rs
race_ips-nonempty [] rs h = absurd (h refl)
race_ips-nonempty (ip ∷ ips) rs h = refl

-- The checks in front of the race let it run.
race_runs :
    (net : Net) (addr host port : List ℕ) (strategy n : ℕ) (timeout : ℤ) (rs : List Racer)
    → split_host_port addr ≡ some (host, port)
    → resolve_ips_for_dial net.resolver host strategy ≢ []
    → is_pos timeout ≡ true
    → 2 ≤ n
    → dial_tcp_with_race net addr strategy (pos n) timeout rs ≡ race rs
unfolding dial_tcp_with_race
race_runs net addr host port strategy n timeout rs split found t many =
    rw (is_pos-pos n (omega arith), t, lt→leb n 1 (omega arith), split)
      (race_ips-nonempty _ rs found)

-- With at least two goroutines, a positive timeout and resolved addresses, no connection of the
-- race leaks: whatever its goroutines do, those that were made are the one that is returned, if
-- any, and the ones that were closed.
pub dial_tcp_with_race-closes :
    (net : Net) (addr host port : List ℕ) (strategy n : ℕ) (timeout : ℤ) (rs : List Racer)
    → split_host_port addr ≡ some (host, port)
    → resolve_ips_for_dial net.resolver host strategy ≢ []
    → is_pos timeout ≡ true
    → 2 ≤ n
    → let r = dial_tcp_with_race net addr strategy (pos n) timeout rs in
      Perm (returned r.0 ++ r.1) (made rs)
dial_tcp_with_race-closes net addr host port strategy n timeout rs split found t many =
    rw (race_runs net addr host port strategy n timeout rs split found t many, race-arrived rs)
      (made-perm rs)
