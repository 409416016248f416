-- ===== src/Base/Parse/Laws.antt =====
-- Reads inside a buffer: that they do not panic, and what they give at a known place.
use pisaller.Base.{
  ℕ, zero, suc, ◌+◌, ◌*◌, ◌<◌, ◌≤◌, ◌≡◌, refl, sym, ap, ◌∙◌, List, [], ◌∷◌, ◌++◌, some, length,
  get_elem?, take, drop, arith, take-append-drop, take-append_self, drop-append_self, append_assoc,
  length-append, le→leb,
}
use pisaller.Base.Parse.{
  Parse, done, fails, panics, stuck, ◌>>=◌, Ensures, or_panic, byte, word, slice,
}

pub Ensures-bind {ℓ κ ι} :
    {A : Type ℓ} {B : Type κ} (P : A → Type ι) (Q : B → Type ι) (m : Parse A) (f : A → Parse B)
    → Ensures P m
    → ((a : A) → P a → Ensures Q (f a))
    → Ensures Q (m >>= f)
Ensures-bind P Q (done a) f h k = k a h
Ensures-bind P Q (fails e) f h k = tt
Ensures-bind P Q panics f h k = elim h [ ]
Ensures-bind P Q stuck f h k = elim h [ ]

get_elem?_in : (xs : List ℕ) (i : ℕ) → i < length xs → (b : ℕ) × (get_elem? xs i ≡ some b)
get_elem?_in [] i h = absurd (omega arith)
get_elem?_in (x ∷ xs) zero h = (x, refl)
get_elem?_in (x ∷ xs) (suc i) h = get_elem?_in xs i (omega arith)

pub byte_in : (xs : List ℕ) (i : ℕ) → i < length xs → (b : ℕ) × (byte xs i ≡ done b)
unfolding byte
byte_in xs i h = let (b, e) = get_elem?_in xs i h in (b, ap or_panic e)

pub word_in : (xs : List ℕ) (i : ℕ) → i + 2 ≤ length xs → (w : ℕ) × (word xs i ≡ done w)
unfolding word
word_in xs i h =
    let (hi, e) = byte_in xs i (omega arith) in
    let (lo, f) = byte_in xs (i + 1) (omega arith) in (hi * 256 + lo, rw (e, f))

-- A part of a buffer.
abbrev pub IsPart : List ℕ → List ℕ → Type 0
IsPart buf v = (front : List ℕ) × (back : List ℕ) × (buf ≡ front ++ (v ++ back))

pub slice_in :
    (xs : List ℕ) (i n : ℕ)
    → i + n ≤ length xs
    → (v : List ℕ) × (slice xs i n ≡ done v) × IsPart xs v
unfolding slice
slice_in xs i n h = (
  take n (drop i xs),
  rw (le→leb (i + n) (length xs) h),
  (
    take i xs,
    drop n (drop i xs),
    sym (ap (λ t. take i xs ++ t) (take-append-drop n (drop i xs)) ∙ take-append-drop i xs),
  ),
)

pub IsPart-trans : (a b c : List ℕ) → IsPart a b → IsPart b c → IsPart a c
IsPart-trans a b c (f, k, e) (g, l, h) =
    (f ++ g, l ++ k, e ∙ ap (λ t. f ++ (t ++ k)) h ∙ simp append_assoc)

get_elem?-append :
    (front : List ℕ) (b : ℕ) (back : List ℕ)
    → get_elem? (front ++ (b ∷ back)) (length front) ≡ some b
get_elem?-append [] b back = refl
get_elem?-append (x ∷ xs) b back = get_elem?-append xs b back

-- At a known place: `front` stands before it.
pub byte_here :
    (front : List ℕ) (b : ℕ) (back buf : List ℕ) (i : ℕ)
    → buf ≡ front ++ (b ∷ back)
    → i ≡ length front
    → byte buf i ≡ done b
unfolding byte
byte_here front b back buf i e h = rw (e, h) (ap or_panic (get_elem?-append front b back))

pub word_here :
    (front : List ℕ) (hi lo : ℕ) (back buf : List ℕ) (i : ℕ)
    → buf ≡ front ++ (hi ∷ lo ∷ back)
    → i ≡ length front
    → word buf i ≡ done (hi * 256 + lo)
unfolding word
word_here front hi lo back buf i e h = rw (
  byte_here front hi (lo ∷ back) buf i e h,
  byte_here (front ++ (hi ∷ [])) lo back buf (i + 1)
      (e ∙ sym (append_assoc front (hi ∷ []) (lo ∷ back)))
      (omega (arith, h, length-append front (hi ∷ []))),
)

pub slice_here :
    (front v back buf : List ℕ) (i n : ℕ)
    → buf ≡ front ++ (v ++ back)
    → i ≡ length front
    → n ≡ length v
    → slice buf i n ≡ done v
unfolding slice
slice_here front v back buf i n e h k =
    rw (e, h, k)
      (rw
        (le→leb (length front + length v) (length (front ++ (v ++ back)))
          (omega (arith, length-append front (v ++ back), length-append v back)))
        (rw (drop-append_self front (v ++ back), take-append_self v back)))

pub bind_assoc {ℓ κ ι} :
    {A : Type ℓ} {B : Type κ} {C : Type ι} (m : Parse A) (f : A → Parse B) (g : B → Parse C)
    → (m >>= λ a. f a >>= g) ≡ (m >>= f >>= g)
bind_assoc (done a) f g = refl
bind_assoc (fails e) f g = refl
bind_assoc panics f g = refl
bind_assoc stuck f g = refl
