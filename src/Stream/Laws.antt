-- ===== src/Stream/Laws.antt =====
-- What one read or one write does to a connection.
use pisaller.Base.{
  ℕ, ◌<◌, ◌≡◌, List, [], ◌++◌, length, length-append, take-append_self, drop-append_self, le→leb,
  lt→leb, ok, err, arith, ne→==, ltb, lt→ltb, ◌==◌, if◌then◌else◌, append-nil, ◌∷◌, ap, ◌∙◌, sym,
  refl, Result, take, leb, leb→le, length-take_le, take-append-drop, Bool-cases, inl, inr,
}
use pisaller.Stream.{
  Conn, Fault, accept, refuse, read_full, write, write_by, short_read, return, bind_result,
}

-- A read that the input covers takes exactly that many bytes.
pub read_full-append :
    (n : ℕ) (xs rest : List ℕ) (c : Conn)
    → n ≡ length xs
    → c.input ≡ xs ++ rest
    → read_full n c ≡ (ok xs, record c { input = rest })
unfolding read_full
read_full-append n xs rest c hn hc =
    rw (hc, hn, le→leb (length xs) (length (xs ++ rest)) (omega (arith, length-append xs rest)))
      (rw (take-append_self xs rest, drop-append_self xs rest))

-- A read that it does not cover fails and leaves nothing.
pub read_full_short :
    (n : ℕ) (c : Conn)
    → length c.input < n
    → read_full n c ≡ (err (short_read c.input c.ending), record c { input = [] })
unfolding read_full
read_full_short n c h = rw (lt→leb n (length c.input) h)

-- With no fault planned a write appends all its bytes.
pub write_healthy :
    (p : List ℕ) (c : Conn)
    → c.faults ≡ []
    → write p c ≡ (ok tt, record c { output = c.output ++ p })
unfolding write
write_healthy p c h = rw (h, write)

-- The same behind the guards on an empty buffer that the code uses.
pub write_nonempty :
    (p : List ℕ) (c : Conn)
    → c.faults ≡ []
    → (if length p == 0 then return tt else write p) c
      ≡ (ok tt, record c { output = c.output ++ p })
write_nonempty [] c h = rw (append-nil c.output)
write_nonempty (x ∷ xs) c h =
    rw (ne→== (length (x ∷ xs)) 0 (λ e. omega arith)) (write_healthy (x ∷ xs) c h)

pub write_positive :
    (p : List ℕ) (c : Conn)
    → c.faults ≡ []
    → (if ltb 0 (length p) then write p else return tt) c
      ≡ (ok tt, record c { output = c.output ++ p })
write_positive [] c h = rw (append-nil c.output)
write_positive (x ∷ xs) c h =
    rw (lt→ltb 0 (length (x ∷ xs)) (omega arith)) (write_healthy (x ∷ xs) c h)

pub read_nonzero :
    (n : ℕ) (xs rest : List ℕ) (c : Conn)
    → n ≡ length xs
    → c.input ≡ xs ++ rest
    → (if n == 0 then return [] else read_full n) c ≡ (ok xs, record c { input = rest })
read_nonzero n [] rest c hn hc = rw (hn, ← hc)
read_nonzero n (x ∷ xs) rest c hn hc =
    rw (ne→== n 0 (λ e. omega arith)) (read_full-append n (x ∷ xs) rest c hn hc)

pub read_positive :
    (n : ℕ) (xs rest : List ℕ) (c : Conn)
    → n ≡ length xs
    → c.input ≡ xs ++ rest
    → (if ltb 0 n then read_full n else return []) c ≡ (ok xs, record c { input = rest })
read_positive n [] rest c hn hc = rw (hn, ← hc)
read_positive n (x ∷ xs) rest c hn hc =
    rw (lt→ltb 0 n (omega arith)) (read_full-append n (x ∷ xs) rest c hn hc)

-- What a reader meets that is sent all that a writer wrote, and then `rest`.
pub received :
    (out bytes rest : List ℕ) (w r : Conn)
    → out ≡ w.output ++ bytes
    → w.output ≡ []
    → r.input ≡ out ++ rest
    → r.input ≡ bytes ++ rest
received out bytes rest w r e ho hr = hr ∙ ap (λ x. x ++ rest) (e ∙ ap (λ x. x ++ bytes) ho)

ok-injective : (xs ys : List ℕ) → ok xs ≡ ok ys → xs ≡ ys
ok-injective xs ys e = cc e

-- What a call that succeeds returns and leaves.
abbrev pub Succeeds {ℓ κ} : {A : Type ℓ} → (A → Conn → Type κ) → Result A × Conn → Type κ
Succeeds P (ok a, c) = P a c
Succeeds P (err e, c) = Unit {κ}

pub Succeeds-bind {ℓ κ μ} :
    {A : Type ℓ} {B : Type κ} (P : B → Conn → Type μ) (r : Result A × Conn)
    (f : A → Conn → Result B × Conn)
    → ((a : A) → r.0 ≡ ok a → Succeeds P (f a r.1))
    → Succeeds P (bind_result r.0 r.1 f)
Succeeds-bind P (ok a, c) f h = h a refl
Succeeds-bind P (err e, c) f h = tt

-- A read that succeeds takes that many bytes off the front, and changes nothing else.
pub read_full-ok :
    (n : ℕ) (c : Conn) (xs : List ℕ)
    → (read_full n c).0 ≡ ok xs
    → (length xs ≡ n) × (c.input ≡ xs ++ (read_full n c).1.input)
unfolding read_full
read_full-ok n c xs e = elim (Bool-cases (leb n (length c.input))) [
  | inl fits ↦
      let same : take n c.input ≡ xs = ok-injective _ _ (rw fits at e) in
      rw (fits, ← same)
        (length-take_le n c.input (leb→le _ _ fits), sym (take-append-drop n c.input))
  | inr short ↦ absurd (cc (rw short at e))
]

pub write-input : (p : List ℕ) (c : Conn) → (write p c).1.input ≡ c.input
unfolding write
write-input p c = by_faults c.faults
  where
    by_faults : (fs : List Fault) → (write_by fs p c).1.input ≡ c.input
    by_faults [] = refl
    by_faults (accept ∷ fs) = refl
    by_faults (refuse n e ∷ fs) = refl

pub Succeeds-map {ℓ κ} :
    {A : Type ℓ} (P Q : A → Conn → Type κ) (r : Result A × Conn)
    → ((a : A) (c : Conn) → P a c → Q a c)
    → Succeeds P r
    → Succeeds Q r
Succeeds-map P Q (ok a, c) f h = f a c h
Succeeds-map P Q (err e, c) f h = tt

pub Succeeds-intro {ℓ κ} :
    {A : Type ℓ} (P : A → Conn → Type κ) (r : Result A × Conn)
    → ((a : A) → r.0 ≡ ok a → P a r.1)
    → Succeeds P r
Succeeds-intro P (ok a, c) h = h a refl
Succeeds-intro P (err e, c) h = tt

-- A postcondition that does not depend on the value.
pub Succeeds-elim {ℓ κ} :
    {A : Type ℓ} (P : Conn → Type κ) (r : Result A × Conn) (a : A)
    → Succeeds (λ _ c. P c) r
    → r.0 ≡ ok a
    → P r.1
Succeeds-elim P (ok x, c) a h e = h
Succeeds-elim P (err x, c) a h e = absurd (cc e)
