-- ===== src/Ech/Lookup/Examples.antt =====
-- A network with one answer, and the theorems at it.
use pisaller.Base.{ℕ, ◌≡◌, refl, List, [], ◌∷◌, arith, ok, err, false, replicate}
use pisaller.Base.Parse.{done, fails}
use pisaller.Base.Text.{contains, has_prefix}
use pisaller.Ech.{split}
use pisaller.Ech.Reply.{Answer, IsAnswer, to_question, https, reply}
use pisaller.Ech.Lookup.{
  Network, EchState, query_ech, query_doh, init_ech, get_ech_list, bad_status, not_loaded,
}
use pisaller.Ech.Lookup.Loading.{init_ech-get}

abbrev domain : List ℕ
domain = b'a' ∷ []

abbrev service : Answer
service = record {
  name = to_question;
  fixed = 0 ∷ 1 ∷ 0 ∷ 0 ∷ 0 ∷ 9 ∷ [];
  body = https 0 1 [] (record { key = 5; value = 7 ∷ 8 ∷ [] } ∷ []);
}

service-IsAnswer : IsAnswer service
service-IsAnswer = record {
  name_fits = tt;
  fixed_fits = refl;
  body_fits = (tt, ((omega arith, omega arith), tt));
  data_fits = omega arith;
}

abbrev head : List ℕ
head = 0 ∷ 1 ∷ 0x81 ∷ 0x80 ∷ 0 ∷ 1 ∷ []

abbrev net : Network
net = record {
  exchange = λ server query. ok (reply head (replicate 4 0) domain 65 (service ∷ []) []);
  fetch = λ url query. ok (503, []);
}

-- "d:53"
abbrev server : List ℕ
server = b'd' ∷ b':' ∷ b'5' ∷ b'3' ∷ []

abbrev fresh : EchState
fresh = record { ech_list = []; ech_fallback = false; ech_domain = []; dns_server = server }

unavailable :
    query_ech net (b'h' ∷ b't' ∷ b't' ∷ b'p' ∷ b':' ∷ b'/' ∷ b'/' ∷ b'd' ∷ []) domain
    ≡ fails bad_status
unfolding query_ech query_doh has_prefix
unavailable = refl

unloaded : get_ech_list fresh ≡ err not_loaded
unfolding get_ech_list
unloaded = refl

init_ech-get_example :
    ((init_ech net server domain false fresh).0 ≡ done tt)
    × (get_ech_list (init_ech net server domain false fresh).1 ≡ ok (7 ∷ 8 ∷ []))
unfolding split pisaller.Ech.prepend has_prefix contains pisaller.Ech.build_dns_query
init_ech-get_example =
    init_ech-get net fresh server domain head (replicate 4 0) [] (7 ∷ 8 ∷ []) (service ∷ []) refl
      refl refl (omega arith) refl refl ((omega arith, omega arith), tt) (service-IsAnswer, tt)
      (omega arith) (omega arith) refl (λ e. omega arith)
