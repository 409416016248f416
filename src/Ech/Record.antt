-- ===== src/Ech/Record.antt =====
-- HTTPS records: the data of a well-formed one, and what the parser finds in it.
use pisaller.Base.{
  ℕ, zero, suc, ◌+◌, ◌*◌, ◌/◌, ◌%◌, ◌<◌, ◌≡◌, refl, sym, ap, ◌∙◌, List, [], ◌∷◌, ◌++◌, length, All,
  arith, le→ltb, lt→ltb, le→leb, lt→leb, ◌==◌, length-append, append_assoc, Option, none, some,
  Bool-cases, inl, inr, if◌then◌else◌, ne→==,
}
use pisaller.Base.Parse.{done, ◌>>=◌}
use pisaller.Base.Parse.Laws.{byte_here, word_here, slice_here, bind_assoc}
use pisaller.Ech.{labels, skip_labels, find_param, is_root_at, parse_https_record}
use pisaller.Ech.Question.{IsLabel, skip_labels-labels}

-- A service parameter: its 16-bit key, and its value.
pub record Param : Type 0 where
  pub key : ℕ
  pub value : List ℕ

abbrev pub IsParam : Param → Type 0
IsParam p = (p.key < 65536) × (length p.value < 65536)

abbrev pub param_bytes : List Param → List ℕ
param_bytes [] = []
param_bytes (p ∷ ps) =
    p.key / 256
    ∷ p.key % 256
    ∷ length p.value / 256
    ∷ length p.value % 256
    ∷ (p.value ++ param_bytes ps)

-- The value of the first parameter with the key 5, which is `ech`.
abbrev pub ech_param : List Param → Option (List ℕ)
ech_param [] = none
ech_param (p ∷ ps) = if p.key == 5 then some p.value else ech_param ps

-- Priority, target name and parameters.
abbrev pub https_bytes : ℕ → ℕ → List (List ℕ) → List Param → List ℕ
https_bytes hi lo target ps = hi ∷ lo ∷ (labels target ++ (0 ∷ param_bytes ps))

pair_value : (n : ℕ) → n / 256 * 256 + n % 256 ≡ n
pair_value n = omega arith

find_param-bytes :
    (ps : List Param) (front buf : List ℕ) (fuel i : ℕ)
    → All IsParam ps
    → buf ≡ front ++ param_bytes ps
    → i ≡ length front
    → length buf < fuel + i
    → find_param fuel buf i ≡ done (ech_param ps)
unfolding find_param
find_param-bytes ps front buf zero i h e k f =
    absurd (omega (arith, ap length e, length-append front (param_bytes ps)))
find_param-bytes [] front buf (suc fuel) i h e k f =
    rw (lt→leb (i + 4) (length buf) (omega (arith, ap length e, length-append front [])))
find_param-bytes (p ∷ ps) front buf (suc fuel) i ((hk, hv), h) e k f =
    let n = length p.value in
    let rest = p.value ++ param_bytes ps in
    let head : List ℕ = p.key / 256 ∷ p.key % 256 ∷ n / 256 ∷ n % 256 ∷ [] in
    let size : length buf ≡ length front + 4 + n + length (param_bytes ps) = omega (
      arith,
      ap length e,
      length-append front (head ++ rest),
      length-append p.value (param_bytes ps),
    ) in
    let key = word_here front (p.key / 256) (p.key % 256) (n / 256 ∷ n % 256 ∷ rest) buf i e k in
    let len =
      word_here (front ++ (p.key / 256 ∷ p.key % 256 ∷ [])) (n / 256) (n % 256) rest buf (i + 2)
        (e ∙ sym (append_assoc front (p.key / 256 ∷ p.key % 256 ∷ []) (n / 256 ∷ n % 256 ∷ rest)))
        (omega (arith, length-append front (p.key / 256 ∷ p.key % 256 ∷ []))) in
    let value =
      slice_here (front ++ head) p.value (param_bytes ps) buf (i + 4) n
        (e ∙ sym (append_assoc front head rest)) (omega (arith, length-append front head)) refl in
    let ih =
      find_param-bytes ps (front ++ (head ++ p.value)) buf fuel (i + 4 + n) h
        (e ∙ simp append_assoc) (omega (arith, length-append front (head ++ p.value)))
        (omega arith) in
    rw (le→leb (i + 4) (length buf) (omega arith), key, len)
      (rw (pair_value p.key, pair_value n)
        (rw (le→ltb (length buf) (i + 4 + n) (omega arith), value, ih)
          (elim (Bool-cases (p.key == 5)) [ inl hit ↦ rw hit | inr miss ↦ rw miss ])))

-- The offset behind the target name, on both branches.
target_end :
    (hi lo : ℕ) (target : List (List ℕ)) (back buf : List ℕ)
    → All IsLabel target
    → buf ≡ hi ∷ lo ∷ (labels target ++ (0 ∷ back))
    → (is_root_at buf 2 >>= λ root. if root then done 3 else skip_labels (length buf + 1) buf 2)
      ≡ done (2 + length (labels target) + 1)
unfolding is_root_at
target_end hi lo [] back buf h e = rw (
  lt→ltb 2 (length buf) (omega (arith, ap length e)),
  byte_here (hi ∷ lo ∷ []) 0 back buf 2 e refl,
)
target_end hi lo (l ∷ ls) back buf ((pos, small), h) e =
    let name = (l ++ labels ls) ++ (0 ∷ back) in
    rw
      (
        lt→ltb 2 (length buf) (omega (arith, ap length e)),
        byte_here (hi ∷ lo ∷ []) (length l % 256) name buf 2 e refl,
        ne→== (length l % 256) 0 (λ z. omega arith),
      )
      (skip_labels-labels (l ∷ ls) (hi ∷ lo ∷ []) back buf (length buf + 1) 2 ((pos, small), h) e
        refl (omega arith))

-- The data of a well-formed HTTPS record gives the value of its first `ech` parameter, and nothing
-- if it has none.
pub parse_https_record-bytes :
    (hi lo : ℕ) (target : List (List ℕ)) (ps : List Param)
    → All IsLabel target
    → All IsParam ps
    → parse_https_record (https_bytes hi lo target ps) ≡ done (ech_param ps)
unfolding parse_https_record
parse_https_record-bytes hi lo target ps h g =
    let buf = https_bytes hi lo target ps in
    let params =
      find_param-bytes ps (hi ∷ lo ∷ (labels target ++ (0 ∷ []))) buf (length buf + 1)
        (2 + length (labels target) + 1) g (simp append_assoc)
        (omega (arith, length-append (labels target) (0 ∷ []))) (omega arith) in
    let at = target_end hi lo target (param_bytes ps) buf h refl in
    rw (le→ltb (length buf) 2 (omega arith)) (
      bind_assoc (is_root_at buf 2)
        (λ root. if root then done 3 else skip_labels (length buf + 1) buf 2)
        (find_param (length buf + 1) buf)
      ∙ ap (λ m. m >>= find_param (length buf + 1) buf) at
      ∙ params)
