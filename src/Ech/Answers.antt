-- ===== src/Ech/Answers.antt =====
-- Whole responses: the parser against an independent reading of a well-formed message.
use pisaller.Base.{
  ℕ, ◌+◌, ◌*◌, ◌/◌, ◌%◌, ◌≤◌, ◌<◌, ◌≡◌, refl, sym, ap, ◌∙◌, List, [], ◌∷◌, ◌++◌, length, All, drop,
  arith, le→ltb, lt→leb, false, ◌==◌, length-append, append_assoc, append-nil, Option, none, some,
  if◌then◌else◌, ne→==,
}
use pisaller.Base.Parse.{done, ◌>>=◌, byte}
use pisaller.Base.Parse.Laws.{byte_here, word_here, slice_here}
use pisaller.Base.Bytes.{put_uint16}
use pisaller.Ech.{
  build_dns_query, labels, split, is_pointer, skip_pointer, skip_answer_name, read_answer,
  find_answer, or_next, parse_https_record, parse_dns_response, type_https,
}
use pisaller.Ech.Question.{IsLabel, not_pointer, skip_labels-labels, skip_question-labels}
use pisaller.Ech.Reply.{
  Name, to_question, spelled, name_bytes, IsName, Body, https, other, body_type, body_bytes, IsBody,
  Answer, IsAnswer, tail_bytes, answer_bytes, body_ech, or_else, answers_ech, found, reply,
}
use pisaller.Ech.Record.{ech_param, parse_https_record-bytes}

skip_name-bytes :
    (n : Name) (front back buf : List ℕ) (i : ℕ)
    → IsName n
    → buf ≡ front ++ (name_bytes n ++ back)
    → i ≡ length front
    → 12 ≤ i
    → 1 ≤ length back
    → skip_answer_name buf i ≡ done (i + length (name_bytes n))
unfolding skip_answer_name skip_pointer
skip_name-bytes to_question front back buf i h e k l m =
    let size : length buf ≡ i + 2 + length back =
      omega (arith, ap length e, length-append front (0xC0 ∷ 0x0C ∷ back)) in
    rw (
      byte_here front 0xC0 (0x0C ∷ back) buf i e k,
      le→ltb (length buf) (i + 2) (omega arith),
      word_here front 0xC0 0x0C back buf i e k,
      lt→leb (length buf) 12 (omega arith),
    )
skip_name-bytes (spelled ls) front back buf i h e k l m =
    let e' : buf ≡ front ++ (labels ls ++ (0 ∷ back)) =
      e ∙ ap (λ t. front ++ t) (append_assoc (labels ls) (0 ∷ []) back) in
    let (b, at, plain) = first_byte ls front back buf i h e' k in
    rw (at, plain)
      (skip_labels-labels ls front back buf (length buf + 1) i h e' k (omega arith)
        ∙ ap done (omega (arith, length-append (labels ls) (0 ∷ []))))
  where
    first_byte :
        (ns : List (List ℕ)) (before behind data_ : List ℕ) (j : ℕ)
        → All IsLabel ns
        → data_ ≡ before ++ (labels ns ++ (0 ∷ behind))
        → j ≡ length before
        → (b : ℕ) × (byte data_ j ≡ done b) × (is_pointer b ≡ false)
    first_byte [] before behind data_ j g d z = (0, byte_here before 0 behind data_ j d z, refl)
    first_byte (n ∷ ns) before behind data_ j ((pos, small), g) d z = (
      length n % 256,
      byte_here before (length n % 256) ((n ++ labels ns) ++ (0 ∷ behind)) data_ j d z,
      not_pointer (length n % 256) (omega arith),
    )

pair_value : (n : ℕ) → n / 256 * 256 + n % 256 ≡ n
pair_value n = omega arith

read_answer-bytes :
    (a : Answer) (rest front buf : List ℕ) (i : ℕ)
    → IsAnswer a
    → buf ≡ front ++ tail_bytes a rest
    → i ≡ length front
    → read_answer buf i
      ≡ done (body_type a.body, body_bytes a.body, i + 10 + length (body_bytes a.body))
unfolding read_answer
read_answer-bytes a rest front buf i h e k =
    let t = body_type a.body in
    let rdata = body_bytes a.body in
    let n = length rdata in
    let typ : List ℕ = t / 256 ∷ t % 256 ∷ [] in
    let len : List ℕ = n / 256 ∷ n % 256 ∷ [] in
    let behind = len ++ (rdata ++ rest) in
    let size : length buf ≡ i + 10 + n + length rest = omega (
      arith,
      ap length e,
      length-append front (tail_bytes a rest),
      length-append a.fixed behind,
      length-append rdata rest,
      h.fixed_fits,
    ) in
    let type_word = word_here front (t / 256) (t % 256) (a.fixed ++ behind) buf i e k in
    let len_word =
      word_here (front ++ (typ ++ a.fixed)) (n / 256) (n % 256) (rdata ++ rest) buf (i + 8)
        (e ∙ simp append_assoc)
        (omega (arith, length-append front (typ ++ a.fixed), h.fixed_fits)) in
    let data_slice =
      slice_here (front ++ (typ ++ (a.fixed ++ len))) rdata rest buf (i + 10) n
        (e ∙ simp append_assoc)
        (omega (
          arith,
          length-append front (typ ++ (a.fixed ++ len)),
          length-append a.fixed len,
          h.fixed_fits,
        ))
        refl in
    rw (le→ltb (length buf) (i + 10) (omega arith), type_word, len_word)
      (rw (pair_value t, pair_value n)
        (rw (le→ltb (length buf) (i + 10 + n) (omega arith), data_slice)))

-- An HTTPS record's data as the parser reads it, and as it is meant.
answer_step :
    (b : Body) (o : Option (List ℕ))
    → IsBody b
    → (if body_type b == type_https
        then (parse_https_record (body_bytes b) >>= λ ech. or_next ech (found o))
        else found o)
      ≡ found (or_else (body_ech b) o)
answer_step (https hi lo target ps) o (h, g) =
    rw (parse_https_record-bytes hi lo target ps h g) (split_on (ech_param ps) o)
  where
    split_on : (p q : Option (List ℕ)) → or_next p (found q) ≡ found (or_else p q)
    split_on none q = refl
    split_on (some v) q = refl
answer_step (other t rdata) o (h, g) = rw (ne→== t 65 g)

length-tail_bytes :
    (a : Answer) (rest : List ℕ)
    → IsAnswer a
    → length (tail_bytes a rest) ≡ 10 + length (body_bytes a.body) + length rest
length-tail_bytes a rest h =
    let n = length (body_bytes a.body) in
    omega (
      arith,
      length-append a.fixed (n / 256 ∷ n % 256 ∷ (body_bytes a.body ++ rest)),
      length-append (body_bytes a.body) rest,
      h.fixed_fits,
    )

find_answer-bytes :
    (answers : List Answer) (extra front buf : List ℕ) (i : ℕ)
    → All IsAnswer answers
    → buf ≡ front ++ answer_bytes answers extra
    → i ≡ length front
    → 12 ≤ i
    → find_answer (length answers) buf i ≡ found (answers_ech answers)
unfolding find_answer
find_answer-bytes [] extra front buf i h e k l = refl
find_answer-bytes (a ∷ more) extra front buf i (h, hs) e k l =
    let rest = answer_bytes more extra in
    let name = name_bytes a.name in
    let at = i + length name in
    let next = at + 10 + length (body_bytes a.body) in
    let e' : buf ≡ (front ++ name) ++ tail_bytes a rest =
      e ∙ sym (append_assoc front name (tail_bytes a rest)) in
    let k' : at ≡ length (front ++ name) = omega (arith, length-append front name) in
    let size : i < length buf = omega (
      arith,
      ap length e,
      length-append front (name ++ tail_bytes a rest),
      length-append name (tail_bytes a rest),
    ) in
    let ih =
      find_answer-bytes more extra ((front ++ name) ++ tail_bytes a []) buf next hs
        (e' ∙ simp (append_assoc, append-nil))
        (omega
          (arith, k', length-append (front ++ name) (tail_bytes a []), length-tail_bytes a [] h))
        (omega arith) in
    rw
      (
        lt→leb (length buf) i size,
        skip_name-bytes a.name front (tail_bytes a rest) buf i h.name_fits e k l (omega arith),
      )
      (rw (read_answer-bytes a rest (front ++ name) buf at h e' k')
        (rw ih (answer_step a.body (answers_ech more) h.body_fits)))

-- On a server's reply to the query that the client built, for a domain whose labels have 1 to 191
-- bytes, with 1 to 65535 well-formed answers, the parser returns the `ech` parameter of the first
-- HTTPS record that has one, and otherwise the error that there is none.
pub parse_dns_response-reply :
    (head counts domain : List ℕ) (qtype : ℕ) (answers : List Answer) (extra : List ℕ)
    → length head ≡ 6
    → length counts ≡ 4
    → All IsLabel (split b'.' domain)
    → All IsAnswer answers
    → 0 < length answers
    → length answers < 65536
    → parse_dns_response (reply head counts domain qtype answers extra)
      ≡ found (answers_ech answers)
unfolding parse_dns_response build_dns_query
parse_dns_response-reply head counts domain qtype answers extra hh hc hl ha hp hn =
    let n = length answers in
    let buf = reply head counts domain qtype answers extra in
    let name = labels (split b'.' domain) in
    let asked : List ℕ = qtype / 256 % 256 ∷ qtype % 256 ∷ 0x00 ∷ 0x01 ∷ [] in
    let front = head ++ (put_uint16 n ++ counts) in
    let behind = asked ++ answer_bytes answers extra in
    let twelve : length front ≡ 12 =
      omega (arith, length-append head (put_uint16 n ++ counts), hh, hc) in
    let question : buf ≡ front ++ (name ++ (0 ∷ behind)) = simp append_assoc in
    let size : length buf ≡ 12 + length name + 5 + length (answer_bytes answers extra) = omega (
      arith,
      ap length question,
      length-append front (name ++ (0 ∷ behind)),
      length-append name (0 ∷ behind),
      twelve,
    ) in
    let count =
      word_here head (n / 256) (n % 256)
        (counts ++ (drop 12 (build_dns_query domain qtype) ++ answer_bytes answers extra)) buf 6
        refl (sym hh) in
    let skipped =
      skip_question-labels (split b'.' domain) front behind buf (length buf + 1) 12 hl question
        (sym twelve) (omega arith) in
    let all =
      find_answer-bytes answers extra (front ++ (name ++ (0 ∷ asked))) buf
        (12 + length name + 1 + 4) ha (question ∙ simp append_assoc)
        (omega (
          arith,
          length-append front (name ++ (0 ∷ asked)),
          length-append name (0 ∷ asked),
          twelve,
        ))
        (omega arith) in
    rw (le→ltb (length buf) 12 (omega arith), count)
      (rw (pair_value n, ne→== n 0 (λ z. omega arith), skipped)
        (rw (le→ltb (length buf) (12 + length name + 1 + 4) (omega arith)) all))
