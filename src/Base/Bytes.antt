-- ===== src/Base/Bytes.antt =====
-- Bytes, and encoding/binary's big-endian 16-bit words.
use pisaller.Base.{ℕ, ◌+◌, ◌*◌, ◌/◌, ◌%◌, ◌≤◌, ◌<◌, ◌≡◌, List, [], ◌∷◌, arith, get_or}

abbrev pub IsByte : ℕ → Type 0
IsByte b = b < 256

-- uint16(n)
abbrev pub to_uint16 : ℕ → ℕ
to_uint16 n = n % 65536

-- binary.BigEndian.PutUint16 of a 16-bit value, as the two bytes that it writes.
abbrev pub put_uint16 : ℕ → List ℕ
put_uint16 v = v / 256 ∷ v % 256 ∷ []

-- binary.BigEndian.Uint16 of two bytes, and of the two bytes at `i` in a buffer.
abbrev pub uint16 : ℕ → ℕ → ℕ
uint16 hi lo = hi * 256 + lo

abbrev pub byte_at : List ℕ → ℕ → ℕ
byte_at buf i = get_or buf i 0

abbrev pub uint16_at : List ℕ → ℕ → ℕ
uint16_at buf i = uint16 (byte_at buf i) (byte_at buf (i + 1))

pub uint16-put : (n : ℕ) → uint16 (n / 256) (n % 256) ≡ n
uint16-put n = omega arith

pub to_uint16-eq_of_le : (n : ℕ) → n ≤ 65535 → to_uint16 n ≡ n
to_uint16-eq_of_le n h = omega arith
