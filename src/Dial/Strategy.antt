-- ===== src/Dial/Strategy.antt =====
-- What the strategies promise.
use mathlib.Core.List.{Perm, perm_middle, perm_append_comm}
use mathlib.Core.List.Perm
use pisaller.Base.{
  ℕ, ◌≡◌, refl, ◌∙◌, ◌⊎◌, inl, inr, true, false, Option, none, some, List, [], ◌∷◌, ◌++◌, length,
  All, lt→ltb, if_split, arith, Result, ok, err, Bool-cases, append-nil, append_assoc,
}
use pisaller.Dial.{
  Resolver, is_v4, filter_ipv4, filter_ipv6, literal_ips, prefer, order_ips, looked_up,
  resolve_with, resolve_ips_for_dial, collect,
}

abbrev pub IsV4 : List ℕ → Type 0
IsV4 ip = is_v4 ip ≡ true

abbrev pub IsV6 : List ℕ → Type 0
IsV6 ip = is_v4 ip ≡ false

filter_ipv4-IsV4 : (ips : List (List ℕ)) → All IsV4 (filter_ipv4 ips)
unfolding filter_ipv4
filter_ipv4-IsV4 [] = tt
filter_ipv4-IsV4 (ip ∷ ips) =
    if_split (All IsV4) (is_v4 ip) (λ v4. (v4, filter_ipv4-IsV4 ips)) λ v6. filter_ipv4-IsV4 ips

filter_ipv6-IsV6 : (ips : List (List ℕ)) → All IsV6 (filter_ipv6 ips)
unfolding filter_ipv6
filter_ipv6-IsV6 [] = tt
filter_ipv6-IsV6 (ip ∷ ips) =
    if_split (All IsV6) (is_v4 ip) (λ v4. filter_ipv6-IsV6 ips) λ v6. (v6, filter_ipv6-IsV6 ips)

-- Under the strategies for one family, every address that is to be dialled is of that family,
-- whatever the host spells and the resolver answers.
pub resolve_ips_for_dial-family :
    (net : Resolver) (host : List ℕ)
    → All IsV4 (resolve_ips_for_dial net host 0x01) × All IsV6 (resolve_ips_for_dial net host 0x02)
unfolding resolve_ips_for_dial literal_ips order_ips
resolve_ips_for_dial-family net host = (v4 (net.parse host), v6 (net.parse host))
  where
    v4_answer : (r : Result (List (List ℕ))) → All IsV4 (looked_up 0x01 r)
    v4_answer (ok ips) = filter_ipv4-IsV4 ips
    v4_answer (err e) = tt

    v6_answer : (r : Result (List (List ℕ))) → All IsV6 (looked_up 0x02 r)
    v6_answer (ok ips) = filter_ipv6-IsV6 ips
    v6_answer (err e) = tt

    v4 : (o : Option (List ℕ)) → All IsV4 (resolve_with net host 0x01 o)
    v4 none = v4_answer (net.lookup host)
    v4 (some ip) = if_split (All IsV4) (is_v4 ip) (λ e. (e, tt)) λ e. tt

    v6 : (o : Option (List ℕ)) → All IsV6 (resolve_with net host 0x02 o)
    v6 none = v6_answer (net.lookup host)
    v6 (some ip) = if_split (All IsV6) (is_v4 ip) (λ e. tt) λ e. (e, tt)

filters-perm : (ips : List (List ℕ)) → Perm (filter_ipv4 ips ++ filter_ipv6 ips) ips
unfolding filter_ipv4 filter_ipv6
filters-perm [] = Perm.nil
filters-perm (ip ∷ ips) = elim (Bool-cases (is_v4 ip)) [
  | inl e ↦ rw e (Perm.cons ip (filters-perm ips))
  | inr e ↦ rw e (
      Perm.trans (perm_middle (filter_ipv4 ips) (filter_ipv6 ips))
        (Perm.cons ip (filters-perm ips)))
]

prefer-append : (xs ys : List (List ℕ)) → prefer xs ys ≡ xs ++ ys
prefer-append [] ys = refl
prefer-append (x ∷ xs) ys = rw (lt→ltb 0 (length (x ∷ xs)) (omega arith))

-- The strategies that prefer a family dial the resolver's addresses, each as often as it was
-- answered: first those of the family, in the resolver's order, and then the others.
pub order_ips_prefer :
    (ips : List (List ℕ))
    → (order_ips 0x03 ips ≡ filter_ipv4 ips ++ filter_ipv6 ips)
      × (order_ips 0x04 ips ≡ filter_ipv6 ips ++ filter_ipv4 ips)
      × Perm (order_ips 0x03 ips) ips
      × Perm (order_ips 0x04 ips) ips
unfolding order_ips
order_ips_prefer ips = (
  prefer-append (filter_ipv4 ips) (filter_ipv6 ips),
  prefer-append (filter_ipv6 ips) (filter_ipv4 ips),
  rw (prefer-append (filter_ipv4 ips) (filter_ipv6 ips)) (filters-perm ips),
  rw (prefer-append (filter_ipv6 ips) (filter_ipv4 ips))
      (Perm.trans (perm_append_comm (filter_ipv6 ips) (filter_ipv4 ips)) (filters-perm ips)),
)

collect_rest : (w : ℕ) (shut conns : List ℕ) → collect (some w) shut conns ≡ (some w, shut ++ conns)
unfolding collect
collect_rest w shut [] = rw (append-nil shut)
collect_rest w shut (conn ∷ conns) =
    collect_rest w (shut ++ (conn ∷ [])) conns ∙ rw (append_assoc shut (conn ∷ []) conns)

-- Of the connections that the race makes, in whatever order they arrive, exactly the first is
-- returned and every other one is closed; with none there is no winner.
pub collect_first :
    (conns : List ℕ)
    → ((conns ≡ []) × (collect none [] conns ≡ (none, [])))
      ⊎ ((w : ℕ) × (rest : List ℕ) × (conns ≡ w ∷ rest) × (collect none [] conns ≡ (some w, rest)))
unfolding collect
collect_first [] = inl (refl, refl)
collect_first (conn ∷ conns) = inr (conn, conns, refl, collect_rest conn [] conns)
