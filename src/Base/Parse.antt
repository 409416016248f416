-- ===== src/Base/Parse.antt =====
-- The outcome of a Go function that indexes and slices a buffer: a value, an error, a run-time
-- panic at an index out of range, or (no Go outcome) fuel that ran out.
pub mod Laws
use pisaller.Base.{
  ℕ, ◌+◌, ◌-◌, ◌*◌, ◌<◌, ◌≤◌, ◌≡◌, refl, sym, ap, ◌∙◌, List, [], ◌∷◌, ◌++◌, Option, none, some,
  length, get_elem?, take, drop, Error, arith, zero, suc, take-append-drop, take-append_self,
  drop-append_self, append_assoc, leb, if◌then◌else◌, length-append, le→leb,
}

pub data Parse {ℓ} (A : Type ℓ) : Type ℓ where
  done : A → Parse A
  fails : Error → Parse A
  panics : Parse A
  stuck : Parse A

infixl 5 ◌>>=◌
abbrev pub ◌>>=◌ {ℓ κ} : {A : Type ℓ} {B : Type κ} → Parse A → (A → Parse B) → Parse B
done a >>= f = f a
fails e >>= f = fails e
panics >>= f = panics
stuck >>= f = stuck

-- The empty type at any level.
pub data Never {ℓ} : Type ℓ where

-- The call returns, and a value that it returns without an error satisfies `P`.
abbrev pub Ensures {ℓ κ} : {A : Type ℓ} → (A → Type κ) → Parse A → Type κ
Ensures P (done a) = P a
Ensures P (fails e) = Unit {κ}
Ensures P panics = Never {κ}
Ensures P stuck = Never {κ}

abbrev pub or_panic {ℓ} : {A : Type ℓ} → Option A → Parse A
or_panic none = panics
or_panic (some a) = done a

-- buf[i]
unfoldable pub byte : List ℕ → ℕ → Parse ℕ
byte buf i = or_panic (get_elem? buf i)

-- binary.BigEndian.Uint16(buf[i : i+2])
unfoldable pub word : List ℕ → ℕ → Parse ℕ
word buf i = do hi ← byte buf i; lo ← byte buf (i + 1); done (hi * 256 + lo)

-- buf[i : i+n]
unfoldable pub slice : List ℕ → ℕ → ℕ → Parse (List ℕ)
slice buf i n = if leb (i + n) (length buf) then done (take n (drop i buf)) else panics
