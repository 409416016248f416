-- ===== src/Ech/Question.antt =====
-- Names in a message: a list of labels is passed over up to the byte behind its final zero.
use pisaller.Base.{
  ℕ, zero, suc, ◌+◌, ◌%◌, ◌<◌, ◌≡◌, refl, ap, ◌∙◌, List, [], ◌∷◌, ◌++◌, length, All, arith, lt→ltb,
  ne→==, true, false, Bool, length-append, append_assoc, ◌&&◌,
}
use pisaller.Base.Parse.{done, byte}
use pisaller.Base.Parse.Laws.{byte_here}
use pisaller.Ech.{labels, is_pointer, skip_question, skip_labels}

-- A test that passes at each number under a bound, checked by evaluation.
passes : ℕ → (ℕ → Bool) → Bool
passes zero p = true
passes (suc n) p = p n && passes n p

passes→at : (p : ℕ → Bool) (n i : ℕ) → passes n p ≡ true → i < n → p i ≡ true
unfolding passes
passes→at p zero i e h = absurd (omega arith)
passes→at p (suc n) i e h = ground (arith, passes→at p n i)

plain_bytes : passes 192 (λ b. elim (is_pointer b) [ true ↦ false | false ↦ true ]) ≡ true
unfolding passes
plain_bytes = refl

pub not_pointer : (b : ℕ) → b < 192 → is_pointer b ≡ false
not_pointer b h = ground (arith, passes→at _ 192 b plain_bytes h)

-- A label that is told from the end of a name and from a pointer. (DNS allows 63 bytes.)
abbrev pub IsLabel : List ℕ → Type 0
IsLabel l = (0 < length l) × (length l < 192)

-- The next place: behind a label of `l`.
label_step :
    (front l rest back buf : List ℕ) (i : ℕ)
    → length l < 192
    → buf ≡ front ++ ((length l % 256 ∷ (l ++ rest)) ++ back)
    → i ≡ length front
    → (byte buf i ≡ done (length l))
      × (buf ≡ (front ++ (length l ∷ l)) ++ (rest ++ back))
      × (i + (length l + 1) ≡ length (front ++ (length l ∷ l)))
label_step front l rest back buf i h e k =
    let b : length l % 256 ≡ length l = omega arith in
    (
      byte_here front (length l) ((l ++ rest) ++ back) buf i (rw b at e) k,
      (rw b at e) ∙ simp append_assoc,
      omega (arith, k, length-append front (length l ∷ l)),
    )

pub skip_question-labels :
    (ls : List (List ℕ)) (front back buf : List ℕ) (fuel i : ℕ)
    → All IsLabel ls
    → buf ≡ front ++ (labels ls ++ (0 ∷ back))
    → i ≡ length front
    → length buf < fuel + i
    → skip_question fuel buf i ≡ done (i + length (labels ls) + 1)
unfolding skip_question
skip_question-labels ls front back buf zero i h e k f =
    absurd (omega (arith, ap length e, length-append front (labels ls ++ (0 ∷ back))))
skip_question-labels [] front back buf (suc fuel) i h e k f =
    rw
      (
        lt→ltb i (length buf) (omega (arith, ap length e, length-append front (0 ∷ back))),
        byte_here front 0 back buf i e k,
      )
      (ap done (omega arith))
skip_question-labels (l ∷ ls) front back buf (suc fuel) i ((pos, small), h) e k f =
    let (b, e', k') = label_step front l (labels ls) (0 ∷ back) buf i small e k in
    let inside : i < length buf =
      omega (arith, ap length e, length-append front (labels (l ∷ ls) ++ (0 ∷ back))) in
    rw (lt→ltb i (length buf) inside, b)
      (rw (ne→== (length l) 0 (λ z. omega arith), not_pointer (length l) small)
        (skip_question-labels ls (front ++ (length l ∷ l)) back buf fuel (i + (length l + 1)) h e'
            k' (omega arith)
          ∙ ap done (omega (arith, length-append l (labels ls)))))

pub skip_labels-labels :
    (ls : List (List ℕ)) (front back buf : List ℕ) (fuel i : ℕ)
    → All IsLabel ls
    → buf ≡ front ++ (labels ls ++ (0 ∷ back))
    → i ≡ length front
    → length buf < fuel + i
    → skip_labels fuel buf i ≡ done (i + length (labels ls) + 1)
unfolding skip_labels
skip_labels-labels ls front back buf zero i h e k f =
    absurd (omega (arith, ap length e, length-append front (labels ls ++ (0 ∷ back))))
skip_labels-labels [] front back buf (suc fuel) i h e k f =
    rw
      (
        lt→ltb i (length buf) (omega (arith, ap length e, length-append front (0 ∷ back))),
        byte_here front 0 back buf i e k,
      )
      (ap done (omega arith))
skip_labels-labels (l ∷ ls) front back buf (suc fuel) i ((pos, small), h) e k f =
    let (b, e', k') = label_step front l (labels ls) (0 ∷ back) buf i small e k in
    let inside : i < length buf =
      omega (arith, ap length e, length-append front (labels (l ∷ ls) ++ (0 ∷ back))) in
    rw (lt→ltb i (length buf) inside, b)
      (rw (ne→== (length l) 0 (λ z. omega arith)) (
        skip_labels-labels ls (front ++ (length l ∷ l)) back buf fuel (i + (length l + 1)) h e' k'
          (omega arith)
        ∙ ap done (omega (arith, length-append l (labels ls)))))
