-- ===== src/Ech/Total.antt =====
-- The parser on any bytes: it returns, it never reads out of range, and what it finds is a part of
-- the response.
use pisaller.Base.{
  ℕ, zero, suc, ◌+◌, ◌<◌, List, Option, none, some, length, arith, ltb, leb, ltb→lt, ltb→le, leb→le,
  leb→lt, Bool-cases, inl, inr, true, false, Bool, ◌==◌, Error, if◌then◌else◌,
}
use pisaller.Base.Parse.{Parse, done, Ensures}
use pisaller.Base.Parse.Laws.{Ensures-bind, byte_in, word_in, slice_in, IsPart, IsPart-trans}
use pisaller.Ech
use pisaller.Ech.{
  skip_pointer, skip_question, skip_labels, find_param, is_root_at, parse_https_record,
  skip_answer_name, read_answer, or_next, find_answer, parse_dns_response, is_pointer, type_https,
}

-- It returns.
abbrev Returns {ℓ} : {A : Type ℓ} → Parse A → Type 0
Returns = Ensures (λ _. Unit {0})

skip_pointer-Returns : (buf : List ℕ) (i : ℕ) (cut : Error) → Returns (skip_pointer buf i cut)
unfolding skip_pointer
skip_pointer-Returns buf i cut = elim (Bool-cases (ltb (length buf) (i + 2))) [
  | inl cut_off ↦ rw cut_off tt
  | inr fits ↦ let (w, e) = word_in buf i (ltb→le _ _ fits) in rw (fits, e) (ground arith)
]

skip_question-Returns :
    (fuel : ℕ) (buf : List ℕ) (i : ℕ)
    → 0 < fuel
    → length buf < fuel + i
    → Returns (skip_question fuel buf i)
unfolding skip_question
skip_question-Returns zero buf i h k = absurd (omega arith)
skip_question-Returns (suc fuel) buf i h k = elim (Bool-cases (ltb i (length buf))) [
  | inr over ↦ rw over tt
  | inl inside ↦
      let lt = ltb→lt i (length buf) inside in
      let (b, e) = byte_in buf i lt in
      rw (inside, e)
        (ground (
          arith,
          skip_pointer-Returns buf i Ech.pointer_cut,
          skip_question-Returns fuel buf (i + (b + 1)) (omega (arith, lt)) (omega (arith, lt)),
        ))
]

skip_labels-Returns :
    (fuel : ℕ) (buf : List ℕ) (i : ℕ)
    → 0 < fuel
    → length buf < fuel + i
    → Returns (skip_labels fuel buf i)
unfolding skip_labels
skip_labels-Returns zero buf i h k = absurd (omega arith)
skip_labels-Returns (suc fuel) buf i h k = elim (Bool-cases (ltb i (length buf))) [
  | inr over ↦ rw over tt
  | inl inside ↦
      let lt = ltb→lt i (length buf) inside in
      let (b, e) = byte_in buf i lt in
      rw (inside, e)
        (ground (
          arith,
          skip_labels-Returns fuel buf (i + (b + 1)) (omega (arith, lt)) (omega (arith, lt)),
        ))
]

-- What it may find in a record.
abbrev FoundIn : List ℕ → Option (List ℕ) → Type 0
FoundIn buf none = Unit {0}
FoundIn buf (some v) = IsPart buf v

find_param-FoundIn :
    (fuel : ℕ) (buf : List ℕ) (i : ℕ)
    → 0 < fuel
    → length buf < fuel + i
    → Ensures (FoundIn buf) (find_param fuel buf i)
unfolding find_param
find_param-FoundIn zero buf i h k = absurd (omega arith)
find_param-FoundIn (suc fuel) buf i h k = elim (Bool-cases (leb (i + 4) (length buf))) [
  | inr over ↦ rw over tt
  | inl inside ↦
      let le = leb→le (i + 4) (length buf) inside in
      let (key, e) = word_in buf i (omega (arith, le)) in
      let (len, f) = word_in buf (i + 2) (omega (arith, le)) in
      let rest =
        find_param-FoundIn fuel buf (i + 4 + len) (omega (arith, le)) (omega (arith, le)) in
      rw (inside, e, f)
        (elim (Bool-cases (ltb (length buf) (i + 4 + len))) [
          | inl cut ↦ rw cut tt
          | inr fits ↦
              let (v, g, part) = slice_in buf (i + 4) len (ltb→le _ _ fits) in
              rw (fits, g)
                (elim (Bool-cases (key == 5)) [ inl hit ↦ rw hit part | inr miss ↦ rw miss rest ])
        ])
]

is_root_at-Returns : (buf : List ℕ) (i : ℕ) → Returns (is_root_at buf i)
unfolding is_root_at
is_root_at-Returns buf i = elim (Bool-cases (ltb i (length buf))) [
  | inr over ↦ rw over tt
  | inl inside ↦ let (b, e) = byte_in buf i (ltb→lt _ _ inside) in rw (inside, e) tt
]

target_offset-Returns :
    (buf : List ℕ) (root : Bool)
    → Returns (if root then done 3 else skip_labels (length buf + 1) buf 2)
target_offset-Returns buf true = tt
target_offset-Returns buf false =
    skip_labels-Returns (length buf + 1) buf 2 (omega arith) (omega arith)

parse_https_record-FoundIn : (buf : List ℕ) → Ensures (FoundIn buf) (parse_https_record buf)
unfolding parse_https_record
parse_https_record-FoundIn buf = elim (Bool-cases (ltb (length buf) 2)) [
  | inl cut ↦ rw cut tt
  | inr fits ↦ rw fits (
      Ensures-bind (λ _. Unit {0}) (FoundIn buf) (is_root_at buf 2) _ (is_root_at-Returns buf 2)
        λ root _.
          Ensures-bind (λ _. Unit {0}) (FoundIn buf)
            (if root then done 3 else skip_labels (length buf + 1) buf 2) _
            (target_offset-Returns buf root)
            λ i _. find_param-FoundIn (length buf + 1) buf i (omega arith) (omega arith))
]

skip_answer_name-Returns :
    (buf : List ℕ) (i : ℕ) → i < length buf → Returns (skip_answer_name buf i)
unfolding skip_answer_name
skip_answer_name-Returns buf i h =
    let (b, e) = byte_in buf i h in
    rw e (
      ground (
        arith,
        skip_pointer-Returns buf i Ech.no_ech,
        skip_labels-Returns (length buf + 1) buf i (omega arith) (omega arith),
      ))

-- The data of an answer is a part of the response.
abbrev RecordIn : List ℕ → ℕ × List ℕ × ℕ → Type 0
RecordIn buf (rr_type, rdata, next) = IsPart buf rdata

read_answer-RecordIn : (buf : List ℕ) (at : ℕ) → Ensures (RecordIn buf) (read_answer buf at)
unfolding read_answer
read_answer-RecordIn buf at = elim (Bool-cases (ltb (length buf) (at + 10))) [
  | inl cut ↦ rw cut tt
  | inr fits ↦
      let le = ltb→le _ _ fits in
      let (rr_type, e) = word_in buf at (omega (arith, le)) in
      let (len, f) = word_in buf (at + 8) (omega (arith, le)) in
      rw (fits, e, f)
        (elim (Bool-cases (ltb (length buf) (at + 10 + len))) [
          | inl cut ↦ rw cut tt
          | inr whole ↦
              let (v, g, part) = slice_in buf (at + 10) len (ltb→le _ _ whole) in rw (whole, g) part
        ])
]

or_next-IsPart :
    (buf rdata : List ℕ) (ech : Option (List ℕ)) (rest : Parse (List ℕ))
    → IsPart buf rdata
    → FoundIn rdata ech
    → Ensures (IsPart buf) rest
    → Ensures (IsPart buf) (or_next ech rest)
or_next-IsPart buf rdata none rest part h k = k
or_next-IsPart buf rdata (some v) rest part h k = IsPart-trans buf rdata v part h

find_answer-IsPart :
    (left : ℕ) (buf : List ℕ) (i : ℕ) → Ensures (IsPart buf) (find_answer left buf i)
unfolding find_answer
find_answer-IsPart zero buf i = tt
find_answer-IsPart (suc left) buf i = elim (Bool-cases (leb (length buf) i)) [
  | inl over ↦ rw over tt
  | inr inside ↦ rw inside (
      Ensures-bind (λ _. Unit {0}) (IsPart buf) (skip_answer_name buf i) _
        (skip_answer_name-Returns buf i (leb→lt _ _ inside))
        λ at _.
          Ensures-bind (RecordIn buf) (IsPart buf) (read_answer buf at) _
            (read_answer-RecordIn buf at)
            λ (rr_type, rdata, next) part.
              let rest = find_answer-IsPart left buf next in
              elim (Bool-cases (rr_type == type_https)) [
                | inr other ↦ rw other rest
                | inl https ↦ rw https (
                    Ensures-bind (FoundIn rdata) (IsPart buf) (parse_https_record rdata) _
                      (parse_https_record-FoundIn rdata)
                      λ ech h. or_next-IsPart buf rdata ech _ part h rest)
              ])
]

-- On any bytes the parser returns: it meets no index or slice out of range, its loops end, and what
-- it returns without an error is a part of the response.
pub parse_dns_response-IsPart :
    (response : List ℕ) → Ensures (IsPart response) (parse_dns_response response)
unfolding parse_dns_response
parse_dns_response-IsPart buf = elim (Bool-cases (ltb (length buf) 12)) [
  | inl cut ↦ rw cut tt
  | inr fits ↦
      let (count, e) = word_in buf 6 (omega (arith, ltb→le _ _ fits)) in
      rw (fits, e)
        (elim (Bool-cases (count == 0)) [
          | inl zero_count ↦ rw zero_count tt
          | inr some_count ↦ rw some_count (
              Ensures-bind (λ _. Unit {0}) (IsPart buf) (skip_question (length buf + 1) buf 12) _
                (skip_question-Returns (length buf + 1) buf 12 (omega arith) (omega arith))
                λ i _. elim (Bool-cases (ltb (length buf) (i + 4))) [
                  | inl cut ↦ rw cut tt
                  | inr whole ↦ rw whole (find_answer-IsPart count buf (i + 4))
                ])
        ])
]
