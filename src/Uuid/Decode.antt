-- ===== src/Uuid/Decode.antt =====
-- What InitUUID makes of a UUID's text, and what MatchUUID accepts afterwards.
use pisaller.Base.Text.{both}
use pisaller.Base.{
  ℕ, suc, ◌+◌, ◌-◌, ◌*◌, ◌/◌, ◌%◌, ◌<◌, ◌≡◌, ◌↔◌, refl, sym, ap, ◌∙◌, true, false, ◌&&◌, none, some,
  List, [], ◌∷◌, ◌++◌, length, take, ltb, ◌==◌, if◌then◌else◌, All, arith, take-append_self,
  length-append, le→ltb, ==→eq, ==_refl, replicate, Bool-cases, inl, inr,
}
use mathlib.Core.Path.{ap₂}
use pisaller.Base.Bytes.{IsByte}
use pisaller.Uuid.{
  Identity, remove_dashes, from_hex, decode_string, init_decoded, init_once, init_uuid,
  get_uuid_bytes, same_prefix, match_stored, match_uuid,
}

-- The lower-case hexadecimal text of some bytes.
abbrev hex_char : ℕ → ℕ
hex_char n = if ltb n 10 then n + b'0' else n - 10 + b'a'

abbrev pub hex : List ℕ → List ℕ
hex [] = []
hex (b ∷ bs) = hex_char (b / 16) ∷ hex_char (b % 16) ∷ hex bs

from_hex-hex_char : (n : ℕ) → n < 16 → from_hex (hex_char n) ≡ some n
from_hex-hex_char n h = ground arith

pub length-hex : (bs : List ℕ) → length (hex bs) ≡ 2 * length bs
length-hex [] = omega arith
length-hex (b ∷ bs) = omega (arith, length-hex bs)

pub decode_string-hex : (bs : List ℕ) → All IsByte bs → decode_string (hex bs) ≡ some bs
unfolding decode_string
decode_string-hex [] h = refl
decode_string-hex (b ∷ bs) (h, hs) =
    let value : b / 16 * 16 + b % 16 ≡ b = omega arith in
    rw
      (
        from_hex-hex_char (b / 16) (omega arith),
        from_hex-hex_char (b % 16) (omega arith),
        decode_string-hex bs hs,
      )
      (rw value)

-- A text that is the hexadecimal form of 16 bytes, with dashes anywhere, is stored by the first
-- InitUUID, which returns nil; GetUUIDBytes then returns those bytes.
pub init_uuid-hex :
    (text bytes : List ℕ) (st : Identity)
    → All IsByte bytes
    → length bytes ≡ 16
    → remove_dashes text ≡ hex bytes
    → st.once_done ≡ false
    → st.init_error ≡ none
    → ((init_uuid text st).0 ≡ none)
      × ((init_uuid text st).1.uuid_bytes ≡ some bytes)
      × (get_uuid_bytes (init_uuid text st).1 ≡ some bytes)
unfolding init_uuid init_once init_decoded get_uuid_bytes
init_uuid-hex text bytes st h l e o i =
    let two : length (hex bytes) ≡ 32 = omega (arith, length-hex bytes) in
    let copy : take 16 (bytes ++ replicate 16 0) ≡ bytes =
      ap (λ n. take n (bytes ++ replicate 16 0)) (sym l)
      ∙ take-append_self bytes (replicate 16 0) in
    simp (o, e, two, decode_string-hex bytes h, l, i) (refl, refl, ap some copy)

init_once-once_done : (text : List ℕ) (st : Identity) → (init_once text st).once_done ≡ st.once_done
unfolding init_once init_decoded
init_once-once_done text st = ground arith

init_uuid_fresh :
    (text : List ℕ) (st : Identity)
    → st.once_done ≡ false
    → let first = init_once text (record st { once_done = true }) in
      init_uuid text st ≡ (first.init_error, first)
unfolding init_uuid
init_uuid_fresh text st o = simp o

pub init_uuid-once_done :
    (text : List ℕ) (st : Identity) → st.once_done ≡ false → (init_uuid text st).1.once_done ≡ true
init_uuid-once_done text st o =
    ap (λ r. r.1.once_done) (init_uuid_fresh text st o)
    ∙ init_once-once_done text (record st { once_done = true })

pub init_uuid_done :
    (text : List ℕ) (st : Identity) → st.once_done ≡ true → init_uuid text st ≡ (st.init_error, st)
unfolding init_uuid
init_uuid_done text st o = simp o

-- Any later InitUUID, whatever its text, returns the first one's error and changes nothing: the
-- server's loop over several UUIDs keeps the first alone.
pub init_uuid_once :
    (text other : List ℕ) (st : Identity)
    → st.once_done ≡ false
    → init_uuid other (init_uuid text st).1 ≡ init_uuid text st
init_uuid_once text other st o =
    let first = init_once text (record st { once_done = true }) in
    let e = init_uuid_fresh text st o in
    let again : init_uuid other first ≡ (first.init_error, first) =
      init_uuid_done other first (init_once-once_done text (record st { once_done = true })) in
    ap (λ r. init_uuid other r.1) e ∙ again ∙ sym e

same_prefix-append : (bs rest : List ℕ) → same_prefix bs (bs ++ rest) ≡ true
same_prefix-append [] rest = refl
same_prefix-append (b ∷ bs) rest = rw (==_refl b) (same_prefix-append bs rest)

same_prefix→append :
    (bs xs : List ℕ) → same_prefix bs xs ≡ true → (rest : List ℕ) × (xs ≡ bs ++ rest)
same_prefix→append [] xs h = (xs, refl)
same_prefix→append (b ∷ bs) [] h = absurd (cc h)
same_prefix→append (b ∷ bs) (x ∷ xs) h =
    let (here, there) = both (x == b) (same_prefix bs xs) h in
    let (rest, e) = same_prefix→append bs xs there in (rest, ap₂ ◌∷◌ (==→eq x b here) e)

-- MatchUUID accepts exactly the data whose bytes behind the first begin with the stored UUID.
pub match_uuid_iff :
    (payload bytes : List ℕ) (st : Identity)
    → st.uuid_bytes ≡ some bytes
    → length bytes ≡ 16
    → (match_uuid payload st ≡ true) ↔ ((x : ℕ) × (rest : List ℕ) × (payload ≡ x ∷ (bytes ++ rest)))
unfolding match_uuid
match_uuid_iff payload bytes st e l = (matched payload, accepted payload)
  where
    matched :
        (xs : List ℕ)
        → (if ltb (length xs) 17 then false else match_stored xs st.uuid_bytes) ≡ true
        → (x : ℕ) × (rest : List ℕ) × (xs ≡ x ∷ (bytes ++ rest))
    matched [] h = absurd (cc h)
    matched (x ∷ xs) h = elim (Bool-cases (ltb (length (x ∷ xs)) 17)) [
      | inl short ↦ absurd (cc (rw short at h))
      | inr long ↦
          let same : ((length bytes == 16) && same_prefix bytes xs) ≡ true = rw (long, e) at h in
          let (rest, k) = same_prefix→append bytes xs (both _ _ same).1 in (x, rest, ap (◌∷◌ x) k)
    ]

    accepted :
        (xs : List ℕ)
        → ((x : ℕ) × (rest : List ℕ) × (xs ≡ x ∷ (bytes ++ rest)))
        → (if ltb (length xs) 17 then false else match_stored xs st.uuid_bytes) ≡ true
    accepted xs (x, rest, k) =
        rw
          (
            k,
            e,
            le→ltb (suc (length (bytes ++ rest))) 17 (omega (arith, length-append bytes rest, l)),
          )
          (rw (l, same_prefix-append bytes rest))
