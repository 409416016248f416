-- ===== src/Ech.antt =====
-- internal/transport/ech.go: the DNS query for an HTTPS record, and the parser of the answer that
-- looks for its ECH configuration. A message is a list of bytes.
pub mod Total
pub mod Question
pub mod Record
pub mod Reply
pub mod Answers
pub mod Lookup
mod Examples
use Prim.Native.Nat.{bit_and}
use pisaller.Base.{
  ℕ, zero, suc, ◌+◌, ◌*◌, ◌/◌, ◌%◌, ◌≡◌, Bool, true, false, Option, none, some, List, [], ◌∷◌, ◌++◌,
  length, leb, ltb, ◌==◌, if◌then◌else◌, Error, failure,
}
use pisaller.Base.Parse.{Parse, done, fails, ◌>>=◌, byte, word, slice}

-- The errors of parseDNSResponse.
abbrev pub too_short : Error
too_short = failure 1

abbrev pub no_answers : Error
no_answers = failure 2

abbrev pub pointer_cut : Error
pointer_cut = failure 3

abbrev pub bad_pointer : Error
bad_pointer = failure 4

abbrev pub question_cut : Error
question_cut = failure 5

abbrev pub no_ech : Error
no_ech = failure 6

abbrev pub type_https : ℕ
type_https = 65

prepend : ℕ → List (List ℕ) → List (List ℕ)
prepend y [] = (y ∷ []) ∷ []
prepend y (l ∷ ls) = (y ∷ l) ∷ ls

-- strings.Split(s, sep) at a separator of one byte.
pub split : ℕ → List ℕ → List (List ℕ)
split sep [] = [] ∷ []
split sep (x ∷ xs) = let rest = split sep xs in if x == sep then [] ∷ rest else prepend x rest

-- The label loop of buildDNSQuery: byte(len(label)), then the label.
abbrev pub labels : List (List ℕ) → List ℕ
labels [] = []
labels (l ∷ ls) = length l % 256 ∷ (l ++ labels ls)

abbrev pub query_header : List ℕ
query_header =
    0x00 ∷ 0x01 ∷ 0x01 ∷ 0x00 ∷ 0x00 ∷ 0x01 ∷ 0x00 ∷ 0x00 ∷ 0x00 ∷ 0x00 ∷ 0x00 ∷ 0x00 ∷ []

-- `qtype` is a uint16.
unfoldable pub build_dns_query : List ℕ → ℕ → List ℕ
build_dns_query domain qtype =
    query_header
    ++ (labels (split b'.' domain) ++ (0x00 ∷ qtype / 256 % 256 ∷ qtype % 256 ∷ 0x00 ∷ 0x01 ∷ []))

-- A name's first byte announces a pointer.
abbrev pub is_pointer : ℕ → Bool
is_pointer b = bit_and b 0xC0 == 0xC0

-- The check of a pointer at `offset`, which is then passed over; `cut` is what the caller does with
-- one that the response ends in.
pub skip_pointer : List ℕ → ℕ → Error → Parse ℕ
skip_pointer response offset cut = if ltb (length response) (offset + 2) then fails cut else do
  p ← word response offset
  if leb (length response) (bit_and p 0x3FFF) then fails bad_pointer else done (offset + 2)

-- The loop over the question's name: the offset behind it.
pub skip_question : ℕ → List ℕ → ℕ → Parse ℕ
skip_question zero response offset = Parse.stuck
skip_question (suc fuel) response offset =
    if ltb offset (length response)
    then (byte response offset >>= λ b.
        let rest = skip_question fuel response (offset + (b + 1)) in
        if b == 0
        then done (offset + 1)
        else if is_pointer b
        then skip_pointer response offset pointer_cut
        else rest)
    else done offset

-- `for offset < len(buf) && buf[offset] != 0 { offset += int(buf[offset]) + 1 }; offset++`
pub skip_labels : ℕ → List ℕ → ℕ → Parse ℕ
skip_labels zero buf offset = Parse.stuck
skip_labels (suc fuel) buf offset =
    if ltb offset (length buf)
    then (byte buf offset >>= λ b.
        let rest = skip_labels fuel buf (offset + (b + 1)) in
        if b == 0 then done (offset + 1) else rest)
    else done (offset + 1)

-- The loop over the parameters of an HTTPS record; none is nil.
pub find_param : ℕ → List ℕ → ℕ → Parse (Option (List ℕ))
find_param zero rdata offset = Parse.stuck
find_param (suc fuel) rdata offset =
    if leb (offset + 4) (length rdata)
    then (word rdata offset >>= λ key. word rdata (offset + 2) >>= λ len.
        let rest = find_param fuel rdata (offset + 4 + len) in
        if ltb (length rdata) (offset + 4 + len)
        then done none
        else (slice rdata (offset + 4) len >>= λ value.
            if key == 5 then done (some value) else rest))
    else done none

-- `offset < len(data) && data[offset] == 0`
pub is_root_at : List ℕ → ℕ → Parse Bool
is_root_at rdata offset =
    if ltb offset (length rdata) then (byte rdata offset >>= λ b. done (b == 0)) else done false

pub parse_https_record : List ℕ → Parse (Option (List ℕ))
parse_https_record rdata = if ltb (length rdata) 2 then done none else do
  root ← is_root_at rdata 2
  offset ← if root then done 3 else skip_labels (length rdata + 1) rdata 2
  find_param (length rdata + 1) rdata offset

-- The name of an answer.
pub skip_answer_name : List ℕ → ℕ → Parse ℕ
skip_answer_name response offset = do
  b ← byte response offset
  if is_pointer b
      then skip_pointer response offset no_ech
      else skip_labels (length response + 1) response offset

-- The fixed fields of an answer and its data: type, data, and the offset behind them.
pub read_answer : List ℕ → ℕ → Parse (ℕ × List ℕ × ℕ)
read_answer response at = if ltb (length response) (at + 10) then fails no_ech else do
  rr_type ← word response at
  data_len ← word response (at + 8)
  if ltb (length response) (at + 10 + data_len)
      then fails no_ech
      else do rdata ← slice response (at + 10) data_len; done (rr_type, rdata, at + 10 + data_len)

-- `if ech := parseHTTPSRecord(data); ech != nil { return ech, nil }`, and else the loop goes on.
abbrev pub or_next : Option (List ℕ) → Parse (List ℕ) → Parse (List ℕ)
or_next none rest = rest
or_next (some v) rest = done v

-- The loop over the answers; a `break` ends it with the error behind the loop.
pub find_answer : ℕ → List ℕ → ℕ → Parse (List ℕ)
find_answer zero response offset = fails no_ech
find_answer (suc left) response offset = if leb (length response) offset then fails no_ech else do
  at ← skip_answer_name response offset
  (rr_type, rdata, next) ← read_answer response at
  let rest = find_answer left response next
  if rr_type == type_https then (parse_https_record rdata >>= λ ech. or_next ech rest) else rest

pub parse_dns_response : List ℕ → Parse (List ℕ)
parse_dns_response response = if ltb (length response) 12 then fails too_short else do
  ancount ← word response 6
  if ancount == 0 then fails no_answers else do
    offset ← skip_question (length response + 1) response 12
    if ltb (length response) (offset + 4)
        then fails question_cut
        else find_answer ancount response (offset + 4)
