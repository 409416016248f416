-- ===== src/Base/Text.antt =====
-- Text as bytes: the functions of the packages strings and net that the code calls.
use pisaller.Base.{
  ℕ, ◌≡◌, Bool, true, false, not, ◌&&◌, ◌||◌, Option, none, some, List, [], ◌∷◌, ◌++◌, length, ◌==◌,
  if◌then◌else◌, refl, ap, inl, inr, ==→eq, ==_refl, drop, Bool-cases,
}

abbrev pub list_eq : List ℕ → List ℕ → Bool
list_eq [] [] = true
list_eq (x ∷ xs) (y ∷ ys) = x == y && list_eq xs ys
list_eq _ _ = false

-- strings.Contains and strings.SplitN(s, sep, 2), for a separator of one byte.
unfoldable pub contains : ℕ → List ℕ → Bool
contains sep [] = false
contains sep (x ∷ xs) = x == sep || contains sep xs

unfoldable pub split_first : ℕ → List ℕ → List ℕ × List ℕ
split_first sep [] = ([], [])
split_first sep (x ∷ xs) =
    let rest = split_first sep xs in if x == sep then ([], xs) else (x ∷ rest.0, rest.1)

-- strings.HasPrefix
unfoldable pub has_prefix : List ℕ → List ℕ → Bool
has_prefix [] s = true
has_prefix (p ∷ ps) [] = false
has_prefix (p ∷ ps) (x ∷ s) = x == p && has_prefix ps s

-- The text before and behind the last colon.
abbrev pub before_colon : ℕ → Option (List ℕ × List ℕ) → List ℕ → Option (List ℕ × List ℕ)
before_colon x (some (h, p)) xs = some (x ∷ h, p)
before_colon x none xs = if x == b':' then some ([], xs) else none

unfoldable pub split_last_colon : List ℕ → Option (List ℕ × List ℕ)
split_last_colon [] = none
split_last_colon (x ∷ xs) = before_colon x (split_last_colon xs) xs

-- net.SplitHostPort behind an opening bracket; none is an error.
abbrev pub after_bracket : List ℕ → List ℕ → Option (List ℕ × List ℕ)
after_bracket h [] = none
after_bracket h (x ∷ p) =
    if x == b':' && not (contains b':' p || contains b'[' p || contains b']' p || contains b'[' h)
    then some (h, p)
    else none

unfoldable pub split_bracketed : List ℕ → Option (List ℕ × List ℕ)
unfolding contains split_first
split_bracketed r =
    let parts = split_first b']' r in
    if contains b']' r then after_bracket parts.0 parts.1 else none

abbrev pub plain_parts : Option (List ℕ × List ℕ) → Option (List ℕ × List ℕ)
plain_parts none = none
plain_parts (some (h, p)) =
    if contains b':' h || contains b'[' h || contains b']' h || contains b'[' p || contains b']' p
    then none
    else some (h, p)

-- net.SplitHostPort
unfoldable pub split_host_port : List ℕ → Option (List ℕ × List ℕ)
unfolding split_bracketed split_last_colon contains
split_host_port [] = none
split_host_port (x ∷ s) =
    if x == b'[' then split_bracketed s else plain_parts (split_last_colon (x ∷ s))

-- net.JoinHostPort
unfoldable pub join_host_port : List ℕ → List ℕ → List ℕ
unfolding contains
join_host_port h p = if contains b':' h then b'[' ∷ (h ++ (b']' ∷ b':' ∷ p)) else h ++ (b':' ∷ p)

pub both : (p q : Bool) → (p && q) ≡ true → (p ≡ true) × (q ≡ true)
both true q h = (refl, h)
both false q h = absurd (cc h)

pub list_eq→eq : (xs ys : List ℕ) → list_eq xs ys ≡ true → xs ≡ ys
list_eq→eq [] [] h = refl
list_eq→eq [] (y ∷ ys) h = absurd (cc h)
list_eq→eq (x ∷ xs) [] h = absurd (cc h)
list_eq→eq (x ∷ xs) (y ∷ ys) h =
    let (here, there) = both (x == y) (list_eq xs ys) h in
    cc (==→eq x y here, list_eq→eq xs ys there)

pub list_eq_refl : (xs : List ℕ) → list_eq xs xs ≡ true
list_eq_refl [] = refl
list_eq_refl (x ∷ xs) = rw (==_refl x) (list_eq_refl xs)

pub has_prefix→append : (p s : List ℕ) → has_prefix p s ≡ true → s ≡ p ++ drop (length p) s
unfolding has_prefix
has_prefix→append [] s h = refl
has_prefix→append (x ∷ p) [] h = absurd (cc h)
has_prefix→append (x ∷ p) (y ∷ s) h =
    let (here, there) = both (y == x) (has_prefix p s) h in
    cc (==→eq y x here, has_prefix→append p s there)

pub has_prefix-append : (p s : List ℕ) → has_prefix p (p ++ s) ≡ true
unfolding has_prefix
has_prefix-append [] s = refl
has_prefix-append (x ∷ p) s = rw (==_refl x) (has_prefix-append p s)

pub drop-append : (p s : List ℕ) → drop (length p) (p ++ s) ≡ s
drop-append [] s = refl
drop-append (x ∷ p) s = drop-append p s

-- A text that has the separator is its two parts around it.
pub split_first-join :
    (sep : ℕ) (s : List ℕ)
    → contains sep s ≡ true
    → s ≡ (split_first sep s).0 ++ (sep ∷ (split_first sep s).1)
unfolding contains split_first
split_first-join sep [] h = absurd (cc h)
split_first-join sep (x ∷ s) h = elim (Bool-cases (x == sep)) [
  | inl e ↦ rw e (ap (λ y. y ∷ s) (==→eq x sep e))
  | inr e ↦ rw e (ap (λ t. x ∷ t) (split_first-join sep s (rw e at h)))
]

-- The first part ends at the first separator.
pub split_first-append :
    (sep : ℕ) (u p : List ℕ)
    → contains sep u ≡ false
    → (contains sep (u ++ (sep ∷ p)) ≡ true) × (split_first sep (u ++ (sep ∷ p)) ≡ (u, p))
unfolding contains split_first
split_first-append sep [] p h = (rw (==_refl sep) refl, rw (==_refl sep) refl)
split_first-append sep (x ∷ u) p h = elim (Bool-cases (x == sep)) [
  | inl e ↦ absurd (cc (h, e))
  | inr e ↦
      let (found, parts) = split_first-append sep u p (rw e at h) in
      (rw e found, rw (e, parts) refl)
]
