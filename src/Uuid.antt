-- ===== src/Uuid.antt =====
-- internal/transport/uuid.go: the client's identity. The package's variables are a state; strings
-- are lists of bytes.
pub mod Decode
mod Examples
use pisaller.Base.{
  ℕ, zero, suc, ◌+◌, ◌-◌, ◌*◌, ◌≡◌, Bool, true, false, ◌&&◌, not, Option, none, some, List, [], ◌∷◌,
  ◌++◌, length, take, leb, ltb, ◌==◌, if◌then◌else◌, get_elem?, replicate,
}
use pisaller.Protocol.{uuid_length}

pub data UuidError : Type 0 where
  invalid_length : ℕ → UuidError
  bad_hex : UuidError
  length_mismatch : ℕ → UuidError

pub record Identity : Type 0 where
  pub uuid_bytes : Option (List ℕ)
  pub once_done : Bool
  pub init_error : Option UuidError

-- strings.ReplaceAll(s, "-", "")
unfoldable pub remove_dashes : List ℕ → List ℕ
remove_dashes [] = []
remove_dashes (c ∷ s) = let rest = remove_dashes s in if c == b'-' then rest else c ∷ rest

-- encoding/hex: the value of a digit, and DecodeString.
abbrev pub from_hex : ℕ → Option ℕ
from_hex c =
    if leb b'0' c && leb c b'9'
    then some (c - b'0')
    else if leb b'a' c && leb c b'f'
    then some (c - b'a' + 10)
    else if leb b'A' c && leb c b'F'
    then some (c - b'A' + 10)
    else none

abbrev pub hex_pair : Option ℕ → Option ℕ → Option (List ℕ) → Option (List ℕ)
hex_pair (some hi) (some lo) (some rest) = some ((hi * 16 + lo) ∷ rest)
hex_pair (some hi) (some lo) none = none
hex_pair (some hi) none rest = none
hex_pair none lo rest = none

pub decode_string : List ℕ → Option (List ℕ)
decode_string [] = some []
decode_string (a ∷ []) = none
decode_string (a ∷ b ∷ s) = hex_pair (from_hex a) (from_hex b) (decode_string s)

-- The function that uuidOnce runs, behind the cleaning.
pub init_decoded : Option (List ℕ) → Identity → Identity
init_decoded none st = record st { init_error = some bad_hex }
init_decoded (some b) st =
    if length b == uuid_length
    then record st { uuid_bytes = some b }
    else record st { init_error = some (length_mismatch (length b)) }

pub init_once : List ℕ → Identity → Identity
init_once uuid_str st =
    let cleaned = remove_dashes uuid_str in
    if length cleaned == 32
    then init_decoded (decode_string cleaned) st
    else record st { init_error = some (invalid_length (length cleaned)) }

-- InitUUID: the error that it returns, and the state.
pub init_uuid : List ℕ → Identity → Option UuidError × Identity
init_uuid uuid_str st =
    if st.once_done
    then (st.init_error, st)
    else let st' = init_once uuid_str (record st { once_done = true }) in (st'.init_error, st')

-- GetUUIDBytes: nil, or `make([]byte, 16)` with the bytes copied into it.
pub get_uuid_bytes : Identity → Option (List ℕ)
get_uuid_bytes st = elim st.uuid_bytes [
  | none ↦ none
  | some b ↦ some (take uuid_length (b ++ replicate uuid_length 0))
]

-- The loop of MatchUUID over the bytes behind the first.
abbrev pub same_prefix : List ℕ → List ℕ → Bool
same_prefix [] xs = true
same_prefix (b ∷ bs) [] = false
same_prefix (b ∷ bs) (x ∷ xs) = x == b && same_prefix bs xs

abbrev pub tail_of : List ℕ → List ℕ
tail_of [] = []
tail_of (x ∷ xs) = xs

abbrev pub match_stored : List ℕ → Option (List ℕ) → Bool
match_stored payload none = false
match_stored payload (some b) = (length b == uuid_length) && same_prefix b (tail_of payload)

-- MatchUUID
pub match_uuid : List ℕ → Identity → Bool
match_uuid payload st =
    if ltb (length payload) (uuid_length + 1) then false else match_stored payload st.uuid_bytes
