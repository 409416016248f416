-- ===== src/Uuid/Examples.antt =====
-- A UUID's text, and the theorems at it.
use pisaller.Base.{ℕ, ◌≡◌, refl, List, ◌∷◌, replicate, none, some, true, false}
use pisaller.Uuid.{
  Identity, remove_dashes, decode_string, init_uuid, init_once, init_decoded, bad_hex,
  invalid_length,
}
use pisaller.Uuid.Decode.{hex}

abbrev fresh : Identity
fresh = record { uuid_bytes = none; once_done = false; init_error = none }

abbrev bytes : List ℕ
bytes = 0x0f ∷ replicate 15 0x07

-- Two dashes among the digits.
abbrev text : List ℕ
text = 0x30 ∷ 0x66 ∷ 0x2d ∷ 0x2d ∷ hex (replicate 15 0x07)

no_digits : (init_uuid (replicate 32 0x67) fresh).0 ≡ some bad_hex
unfolding init_uuid init_once remove_dashes decode_string init_decoded
no_digits = refl

dashes_only : (init_uuid (replicate 5 0x2d) fresh).0 ≡ some (invalid_length 0)
unfolding init_uuid init_once remove_dashes
dashes_only = refl

abbrev known : Identity
known = record { uuid_bytes = some bytes; once_done = true; init_error = none }
