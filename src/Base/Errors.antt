-- ===== src/Base/Errors.antt =====
-- Go's `error` values, and the pair of a value and an error that its functions return.
use Prim.Native.Nat.{ℕ}
use mathlib.Core.Bool.{Bool, true, false}

-- The errors that the code names or builds. `failure n` is an error from outside (a socket, a
-- WebSocket, a resolver); `n` tells two of them apart.
pub data Error : Type 0 where
  eof unexpected_eof closed closed_pipe : Error
  invalid_handshake bad_timeout bad_concur : Error
  target_too_long chunk_too_long addr_too_long : Error
  failure : ℕ → Error

-- A call that returns a value with a nil error, or an error whose value is not looked at.
pub data Result {ℓ} (A : Type ℓ) : Type ℓ where
  ok : A → Result A
  err : Error → Result A

abbrev pub is_ok {ℓ} : {A : Type ℓ} → Result A → Bool
is_ok (ok a) = true
is_ok (err e) = false
