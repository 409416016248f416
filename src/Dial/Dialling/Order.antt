-- ===== src/Dial/Dialling/Order.antt =====
-- In which order DialTCPWithStrategy tries the addresses of a name.
use pisaller.Base.{
  ℕ, ◌+◌, ◌≡◌, refl, sym, suc, none, some, List, [], ◌∷◌, ◌++◌, length, take, arith, Result, ok,
  err, Bool, not, ◌||◌, ◌&&◌, ◌==◌, if◌then◌else◌,
}
use pisaller.Base.Text.{split_host_port, join_host_port, list_eq}
use pisaller.Address.{to_4, v4_prefix}
use pisaller.Dial.{is_v4, filter_ipv4, filter_ipv6, resolve_ips_for_dial}
use pisaller.Dial.Strategy.{order_ips_prefer}
use pisaller.Dial.Dialling.{Net, any, or_else, dial_ips, dial_tcp_with_strategy}

or_else_assoc : (a b c : Result ℕ) → or_else (or_else a b) c ≡ or_else a (or_else b c)
or_else_assoc (ok conn) b c = refl
or_else_assoc (err e) b c = refl

dial_ips-append :
    (net : Net) (port : List ℕ) (i : ℕ) (xs ys : List (List ℕ))
    → dial_ips net port i (xs ++ ys)
      ≡ or_else (dial_ips net port i xs) (dial_ips net port (i + length xs) ys)
unfolding dial_ips
dial_ips-append net port i [] ys = let e : i + 0 ≡ i = omega arith in rw e refl
dial_ips-append net port i (ip ∷ xs) ys =
    let e : i + 1 + length xs ≡ i + suc (length xs) = omega arith in
    rw (dial_ips-append net port (i + 1) xs ys, e)
      (sym (
        or_else_assoc (net.attempt i any (join_host_port (net.format ip) port))
          (dial_ips net port (i + 1) xs) (dial_ips net port (i + suc (length xs)) ys)))

dial_ips-two :
    (net : Net) (port : List ℕ) (xs ys : List (List ℕ))
    → dial_ips net port 0 (xs ++ ys)
      ≡ or_else (dial_ips net port 0 xs) (dial_ips net port (length xs) ys)
dial_ips-two net port xs ys =
    let e : length xs ≡ 0 + length xs = omega arith in rw e (dial_ips-append net port 0 xs ys)

-- The two families by their bytes: an IPv4 address has four, or sixteen of which the first twelve
-- are those of an IPv4-mapped one; every other address is an IPv6 one.
abbrev pub has_four_bytes : List ℕ → Bool
has_four_bytes ip = (length ip == 4) || ((length ip == 16) && list_eq (take 12 ip) v4_prefix)

abbrev pub keep : (List ℕ → Bool) → List (List ℕ) → List (List ℕ)
keep p [] = []
keep p (ip ∷ ips) = let rest = keep p ips in if p ip then ip ∷ rest else rest

abbrev pub v4_of : List (List ℕ) → List (List ℕ)
v4_of ips = keep has_four_bytes ips

abbrev pub v6_of : List (List ℕ) → List (List ℕ)
v6_of ips = keep (λ ip. not (has_four_bytes ip)) ips

is_v4_bytes : (ip : List ℕ) → is_v4 ip ≡ has_four_bytes ip
unfolding to_4
is_v4_bytes ip = ground arith

filter_ipv4-keep : (ips : List (List ℕ)) → filter_ipv4 ips ≡ v4_of ips
unfolding filter_ipv4
filter_ipv4-keep [] = refl
filter_ipv4-keep (ip ∷ ips) = rw (is_v4_bytes ip, filter_ipv4-keep ips) refl

filter_ipv6-keep : (ips : List (List ℕ)) → filter_ipv6 ips ≡ v6_of ips
unfolding filter_ipv6
filter_ipv6-keep [] = refl
filter_ipv6-keep (ip ∷ ips) = ground (arith, is_v4_bytes ip, filter_ipv6-keep ips)

-- For a name with resolved addresses, the strategies that prefer a family try all of its addresses
-- first, in the resolver's order, and those of the other family only if none of them can be
-- reached. IPv4 addresses are those of four bytes and the IPv4-mapped ones of sixteen.
pub dial_tcp_with_strategy-prefer :
    (net : Net) (addr host port : List ℕ) (ips : List (List ℕ))
    → split_host_port addr ≡ some (host, port)
    → net.resolver.parse host ≡ none
    → net.resolver.lookup host ≡ ok ips
    → (dial_tcp_with_strategy net addr 0x03
        ≡ or_else
            (dial_ips net port 0 (v4_of ips))
            (dial_ips net port (length (v4_of ips)) (v6_of ips)))
      × (dial_tcp_with_strategy net addr 0x04
          ≡ or_else
              (dial_ips net port 0 (v6_of ips))
              (dial_ips net port (length (v6_of ips)) (v4_of ips)))
unfolding dial_tcp_with_strategy resolve_ips_for_dial
dial_tcp_with_strategy-prefer net addr host port ips split name found =
    rw (split, name, name, found)
      (let o = order_ips_prefer ips in
        (
          rw (o.0, filter_ipv4-keep ips, filter_ipv6-keep ips)
              (dial_ips-two net port (v4_of ips) (v6_of ips)),
          rw (o.1, filter_ipv4-keep ips, filter_ipv6-keep ips)
              (dial_ips-two net port (v6_of ips) (v4_of ips)),
        ))
