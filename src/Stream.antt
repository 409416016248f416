-- ===== src/Stream.antt =====
-- A connection as the code sees it through net.Conn, io.Reader and io.Writer: the bytes that wait
-- to be read, the bytes that were written, how coming writes turn out, and the two deadlines.
pub mod Laws
use pisaller.Base.{
  ℕ, ◌+◌, ◌≡◌, Bool, true, false, Option, none, some, List, [], ◌∷◌, ◌++◌, length, take, drop, leb,
  if◌then◌else◌, Error, eof, unexpected_eof, Result, ok, err,
}
use pisaller.Base.Int.{ℤ, to_ℕ}

-- How one Write turns out: it takes all bytes, or `n` of them and then fails.
pub data Fault : Type 0 where
  accept : Fault
  refuse : ℕ → Error → Fault

pub record Conn : Type 0 where
  -- What the peer sent and nobody has read, and what Read reports behind it.
  pub input : List ℕ
  pub ending : Error
  -- What Write has taken, and the outcomes of coming Writes; behind them every Write succeeds.
  pub output : List ℕ
  pub faults : List Fault
  pub read_deadline : Option ℕ
  pub write_deadline : Option ℕ

-- A call on a connection: its result, and the connection after it.
abbrev pub M {ℓ} : Type ℓ → Type ℓ
M A = Conn → Result A × Conn

abbrev pub bind_result {ℓ κ} :
    {A : Type ℓ} {B : Type κ} → Result A → Conn → (A → M B) → Result B × Conn
bind_result (ok a) c f = f a c
bind_result (err e) c f = (err e, c)

infixl 5 ◌>>=◌ ◌>>◌
-- `if err != nil { return err }` between two calls.
abbrev pub ◌>>=◌ {ℓ κ} : {A : Type ℓ} {B : Type κ} → M A → (A → M B) → M B
◌>>=◌ m f c = bind_result (m c).0 (m c).1 f

abbrev pub ◌>>◌ {ℓ} : {B : Type ℓ} → M (Unit {0}) → M B → M B
◌>>◌ m k c = bind_result (m c).0 (m c).1 (λ _. k)

abbrev pub return {ℓ} : {A : Type ℓ} → A → M A
return a c = (ok a, c)

abbrev pub fail {ℓ} : {A : Type ℓ} → Error → M A
fail e c = (err e, c)

-- io.ErrUnexpectedEOF stands for an end of file that comes after some bytes.
abbrev pub short_read : List ℕ → Error → Error
short_read (x ∷ xs) eof = unexpected_eof
short_read xs e = e

-- io.ReadFull into a buffer of `n` bytes.
unfoldable pub read_full : ℕ → M (List ℕ)
read_full n c =
    if leb n (length c.input)
    then (ok (take n c.input), record c { input = drop n c.input })
    else (err (short_read c.input c.ending), record c { input = [] })

unfoldable pub write_by : List Fault → List ℕ → M (Unit {0})
write_by [] p c = (ok tt, record c { output = c.output ++ p })
write_by (accept ∷ fs) p c = (ok tt, record c { output = c.output ++ p; faults = fs })
write_by (refuse n e ∷ fs) p c = (err e, record c { output = c.output ++ take n p; faults = fs })

-- Write
unfoldable pub write : List ℕ → M (Unit {0})
unfolding write_by
write p c = write_by c.faults p c

-- SetReadDeadline(now + timeout), the body, and the deferred SetReadDeadline(time.Time{}).
abbrev pub with_read_deadline {ℓ} : {A : Type ℓ} → ℕ → ℤ → M A → M A
with_read_deadline now timeout m c =
    let after = m (record c { read_deadline = some (now + to_ℕ timeout) }) in
    (after.0, record after.1 { read_deadline = none })

abbrev pub with_write_deadline {ℓ} : {A : Type ℓ} → ℕ → ℤ → M A → M A
with_write_deadline now timeout m c =
    let after = m (record c { write_deadline = some (now + to_ℕ timeout) }) in
    (after.0, record after.1 { write_deadline = none })
