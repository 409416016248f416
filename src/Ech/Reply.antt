-- ===== src/Ech/Reply.antt =====
-- The answers of a well-formed response, its bytes, and what it says about ECH.
use pisaller.Base.{
  ℕ, ◌/◌, ◌%◌, ◌<◌, ◌≡◌, ◌≢◌, List, [], ◌∷◌, ◌++◌, length, All, drop, Option, none, some,
}
use pisaller.Base.Parse.{Parse, done, fails}
use pisaller.Base.Bytes.{put_uint16}
use pisaller.Ech.{build_dns_query, labels, no_ech}
use pisaller.Ech.Question.{IsLabel}
use pisaller.Ech.Record.{Param, IsParam, https_bytes, ech_param}

-- The name of an answer: a pointer to the question's name, or written out.
pub data Name : Type 0 where
  to_question : Name
  spelled : List (List ℕ) → Name

abbrev pub name_bytes : Name → List ℕ
name_bytes to_question = 0xC0 ∷ 0x0C ∷ []
name_bytes (spelled ls) = labels ls ++ (0 ∷ [])

abbrev pub IsName : Name → Type 0
IsName to_question = Unit {0}
IsName (spelled ls) = All IsLabel ls

-- What an answer says: an HTTPS record, or a record of another type.
pub data Body : Type 0 where
  https : ℕ → ℕ → List (List ℕ) → List Param → Body
  other : ℕ → List ℕ → Body

abbrev pub body_type : Body → ℕ
body_type (https hi lo target ps) = 65
body_type (other t rdata) = t

abbrev pub body_bytes : Body → List ℕ
body_bytes (https hi lo target ps) = https_bytes hi lo target ps
body_bytes (other t rdata) = rdata

abbrev pub IsBody : Body → Type 0
IsBody (https hi lo target ps) = All IsLabel target × All IsParam ps
IsBody (other t rdata) = (t < 65536) × (t ≢ 65)

-- `fixed` is the six bytes of class and time to live.
pub record Answer : Type 0 where
  pub name : Name
  pub fixed : List ℕ
  pub body : Body

pub record IsAnswer (a : Answer) : Type 0 where
  pub name_fits : IsName a.name
  pub fixed_fits : length a.fixed ≡ 6
  pub body_fits : IsBody a.body
  pub data_fits : length (body_bytes a.body) < 65536

abbrev pub tail_bytes : Answer → List ℕ → List ℕ
tail_bytes a rest =
    body_type a.body / 256
    ∷ body_type a.body % 256
    ∷ (a.fixed
        ++ (length (body_bytes a.body) / 256
            ∷ length (body_bytes a.body) % 256
            ∷ (body_bytes a.body ++ rest)))

abbrev pub answer_bytes : List Answer → List ℕ → List ℕ
answer_bytes [] extra = extra
answer_bytes (a ∷ more) extra = name_bytes a.name ++ tail_bytes a (answer_bytes more extra)

-- The configuration of the first HTTPS record that has one.
abbrev pub body_ech : Body → Option (List ℕ)
body_ech (https hi lo target ps) = ech_param ps
body_ech (other t rdata) = none

abbrev pub or_else : Option (List ℕ) → Option (List ℕ) → Option (List ℕ)
or_else (some v) o = some v
or_else none o = o

abbrev pub answers_ech : List Answer → Option (List ℕ)
answers_ech [] = none
answers_ech (a ∷ more) = or_else (body_ech a.body) (answers_ech more)

abbrev pub found : Option (List ℕ) → Parse (List ℕ)
found (some v) = done v
found none = fails no_ech

-- A server's reply: six bytes of identity, flags and question count, the number of answers, the
-- other two counts, the question as the client asked it, the answers, and what follows them.
abbrev pub reply : List ℕ → List ℕ → List ℕ → ℕ → List Answer → List ℕ → List ℕ
reply head counts domain qtype answers extra =
    head
    ++ (put_uint16 (length answers)
        ++ (counts ++ (drop 12 (build_dns_query domain qtype) ++ answer_bytes answers extra)))
