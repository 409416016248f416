-- ===== src/Ech/Examples.antt =====
-- A reply to a query for "ab.c", and the theorems at it.
use pisaller.Base.{ℕ, ◌≡◌, refl, List, [], ◌∷◌, arith}
use pisaller.Base.Parse.{done, fails, Ensures, byte, word}
use pisaller.Base.Parse.Laws.{IsPart}
use pisaller.Ech.{
  build_dns_query, split, parse_dns_response, parse_https_record, skip_question, skip_pointer,
  skip_labels, find_param, is_root_at, skip_answer_name, read_answer, find_answer, bad_pointer,
}
use pisaller.Ech.Total.{parse_dns_response-IsPart}
use pisaller.Ech.Record.{Param}
use pisaller.Ech.Reply.{Answer, IsAnswer, to_question, spelled, https, other, reply}
use pisaller.Ech.Answers.{parse_dns_response-reply}

abbrev domain : List ℕ
domain = 0x61 ∷ 0x62 ∷ 0x2e ∷ 0x63 ∷ []

query :
    build_dns_query domain 65
    ≡ 0 ∷ 1 ∷ 1 ∷ 0 ∷ 0 ∷ 1 ∷ 0 ∷ 0 ∷ 0 ∷ 0 ∷ 0 ∷ 0 ∷ 2 ∷ 0x61 ∷ 0x62 ∷ 1 ∷ 0x63 ∷ 0 ∷ 0 ∷ 65 ∷ 0
      ∷ 1 ∷ []
unfolding build_dns_query split pisaller.Ech.prepend
query = refl

abbrev alpn : Param
alpn = record { key = 1; value = 2 ∷ 0x68 ∷ 0x32 ∷ [] }

abbrev ech : Param
ech = record { key = 5; value = 7 ∷ 8 ∷ [] }

abbrev cname : Answer
cname = record {
  name = to_question;
  fixed = 0 ∷ 1 ∷ 0 ∷ 0 ∷ 0 ∷ 9 ∷ [];
  body = other 5 (1 ∷ 0x78 ∷ 0 ∷ []);
}

abbrev service : Answer
service = record {
  name = spelled ((0x78 ∷ []) ∷ []);
  fixed = 0 ∷ 1 ∷ 0 ∷ 0 ∷ 0 ∷ 9 ∷ [];
  body = https 0 1 [] (alpn ∷ ech ∷ []);
}

cname-IsAnswer : IsAnswer cname
cname-IsAnswer = record {
  name_fits = tt;
  fixed_fits = refl;
  body_fits = (omega arith, λ e. omega arith);
  data_fits = omega arith;
}

service-IsAnswer : IsAnswer service
service-IsAnswer = record {
  name_fits = ((omega arith, omega arith), tt);
  fixed_fits = refl;
  body_fits = (tt, ((omega arith, omega arith), ((omega arith, omega arith), tt)));
  data_fits = omega arith;
}

abbrev head : List ℕ
head = 0 ∷ 1 ∷ 0x81 ∷ 0x80 ∷ 0 ∷ 1 ∷ []

abbrev counts : List ℕ
counts = 0 ∷ 0 ∷ 0 ∷ 0 ∷ []

abbrev response : List ℕ
response = reply head counts domain 65 (cname ∷ service ∷ []) (9 ∷ [])

-- A question whose name is a pointer behind the end.
far_pointer :
    parse_dns_response (0 ∷ 1 ∷ 0 ∷ 0 ∷ 0 ∷ 1 ∷ 0 ∷ 1 ∷ 0 ∷ 0 ∷ 0 ∷ 0 ∷ 0xC0 ∷ 0xFF ∷ [])
    ≡ fails bad_pointer
unfolding parse_dns_response skip_question skip_pointer byte word
far_pointer = refl

parse_dns_response-IsPart_example : Ensures (IsPart response) (parse_dns_response response)
parse_dns_response-IsPart_example = parse_dns_response-IsPart response

parse_dns_response-reply_example : parse_dns_response response ≡ done (7 ∷ 8 ∷ [])
unfolding split pisaller.Ech.prepend
parse_dns_response-reply_example =
    parse_dns_response-reply head counts domain 65 (cname ∷ service ∷ []) (9 ∷ []) refl refl
      ((omega arith, omega arith), ((omega arith, omega arith), tt))
      (cname-IsAnswer, (service-IsAnswer, tt)) (omega arith) (omega arith)
