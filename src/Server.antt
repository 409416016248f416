-- ===== src/Server.antt =====
-- The server's door: the UUIDs of internal/config/config.go, and the handshake of handleWebSocket
-- of cmd/server/main.go on the first stream of a connection.
pub mod Auth
pub mod Lengths
pub mod WebSocket
pub mod Startup
mod Examples
use pisaller.Base.{
  ℕ, ◌≡◌, Bool, true, false, ◌||◌, Option, none, some, List, [], ◌∷◌, ◌++◌, length, ◌==◌,
  if◌then◌else◌, Result, ok, err,
}
use pisaller.Base.Int.{ℤ}
use pisaller.Stream.{Conn}
use pisaller.Base.Text.{list_eq}
use pisaller.Protocol.{
  uuid_length, handshake_ok, handshake_fail, read_handshake_request, write_handshake_response,
}
use pisaller.Uuid.{
  UuidError, invalid_length, bad_hex, length_mismatch, remove_dashes, decode_string,
}

-- What LoadServerConfig makes of one text.
pub data Checked : Type 0 where
  bad : UuidError → Checked
  good : List ℕ → Checked

abbrev pub check_decoded : Option (List ℕ) → Checked
check_decoded none = bad bad_hex
check_decoded (some b) =
    if length b == uuid_length then good b else bad (length_mismatch (length b))

pub check_uuid : List ℕ → Checked
check_uuid s =
    let cleaned = remove_dashes s in
    if length cleaned == 32
    then check_decoded (decode_string cleaned)
    else bad (invalid_length (length cleaned))

pub data Loaded : Type 0 where
  rejected : UuidError → Loaded
  loaded : List (List ℕ) → Loaded

-- The rest of the loop's body: it returns the error, or goes on with the UUID at the end.
abbrev pub load_next : Checked → List (List ℕ) → (List (List ℕ) → Loaded) → Loaded
load_next (bad e) bins more = rejected e
load_next (good b) bins more = more (bins ++ (b ∷ []))

-- The loop over AuthUUIDs behind `bins`.
pub load_auth_uuids : List (List ℕ) → List (List ℕ) → Loaded
load_auth_uuids bins [] = loaded bins
load_auth_uuids bins (s ∷ ss) = load_next (check_uuid s) bins (λ more. load_auth_uuids more ss)

-- The loop over AuthUUIDBin, with bytes.Equal.
unfoldable pub is_allowed : List ℕ → List (List ℕ) → Bool
is_allowed uuid [] = false
is_allowed uuid (bin ∷ bins) = list_eq uuid bin || is_allowed uuid bins

-- What becomes of a connection: both its layers are closed, or a session with the client's name
-- runs.
pub data Verdict : Type 0 where
  dropped : Verdict
  welcomed : List ℕ → Verdict

abbrev pub after_response : List ℕ → Result (Unit {0}) × Conn → Verdict × Conn
after_response uuid (ok done_, c) = (welcomed uuid, c)
after_response uuid (err e, c) = (dropped, c)

unfoldable pub answer_request : ℕ → ℤ → List (List ℕ) → Result (List ℕ) × Conn → Verdict × Conn
answer_request later timeout bins (err e, c) = (dropped, c)
answer_request later timeout bins (ok uuid, c) =
    if is_allowed uuid bins
    then after_response uuid (write_handshake_response later handshake_ok timeout c)
    else (dropped, (write_handshake_response later handshake_fail timeout c).1)

-- handleWebSocket from the handshake to the session.
unfoldable pub serve_handshake : ℕ → ℕ → ℤ → List (List ℕ) → Conn → Verdict × Conn
serve_handshake now later timeout bins c =
    answer_request later timeout bins (read_handshake_request now timeout c)
