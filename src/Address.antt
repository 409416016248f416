-- ===== src/Address.antt =====
-- net.IP, the standard library's addresses: lists of 4 or 16 bytes. Their text form and its parser
-- are parameters.
use mathlib.Core.Option.{some-injective}
use pisaller.Base.Text.{list_eq}
use pisaller.Base.{
  ℕ, ◌≡◌, ◌&&◌, Option, none, some, List, [], ◌∷◌, length, take, drop, ◌==◌, if◌then◌else◌, arith,
  length-drop, ap,
}

-- net.IP.String and net.ParseIP.
pub record IpText : Type 0 where
  pub format : List ℕ → List ℕ
  pub parse : List ℕ → Option (List ℕ)

-- The first twelve bytes of an IPv4 address in its 16-byte form.
abbrev pub v4_prefix : List ℕ
v4_prefix = 0 ∷ 0 ∷ 0 ∷ 0 ∷ 0 ∷ 0 ∷ 0 ∷ 0 ∷ 0 ∷ 0 ∷ 0xFF ∷ 0xFF ∷ []

-- net.IP.To4
unfoldable pub to_4 : List ℕ → Option (List ℕ)
to_4 ip =
    if length ip == 4
    then some ip
    else if length ip == 16 && list_eq (take 12 ip) v4_prefix
    then some (drop 12 ip)
    else none

pub length-to_4 : (ip v : List ℕ) → length ip ≡ 16 → to_4 ip ≡ some v → length v ≡ 4
unfolding to_4
length-to_4 ip v h e = ground (arith, length_some (drop 12 ip) v, length-drop 12 ip)
  where
    length_some : (x y : List ℕ) → some x ≡ some y → length x ≡ length y
    length_some x y k = ap length (some-injective x y k)
