-- ===== src/Ech/Lookup/Loading.antt =====
-- What the client's list is after the package has been initialised or refreshed.
use pisaller.Base.{
  Bool, ℕ, ◌≤◌, ◌<◌, ◌≡◌, ◌≢◌, refl, ap, zero, suc, if_split, true, false, ◌||◌, some, List, [],
  ◌∷◌, length, take, All, ok, err, Error, ne→==, arith, Result, ◌==◌,
}
use pisaller.Base.Parse.{Parse, done, fails, panics, stuck, Ensures}
use pisaller.Base.Text.{contains, has_prefix}
use pisaller.Ech.{split, build_dns_query, type_https}
use pisaller.Ech.Question.{IsLabel}
use pisaller.Ech.Reply.{Answer, IsAnswer, answers_ech, reply}
use pisaller.Ech.Answers.{parse_dns_response-reply}
use pisaller.Ech.Total.{parse_dns_response-IsPart}
use pisaller.Ech.Lookup.{
  Network, EchState, udp_buffer, http_scheme, https_scheme, query_dns_udp, query_doh, query_ech,
  not_loaded, keep_answer, refresh_ech, init_ech, get_ech_list, parse_datagram, parse_body,
}

take_whole : (n : ℕ) (xs : List ℕ) → length xs ≤ n → take n xs ≡ xs
take_whole zero [] h = refl
take_whole zero (x ∷ xs) h = absurd (omega arith)
take_whole (suc n) [] h = refl
take_whole (suc n) (x ∷ xs) h = ap (◌∷◌ x) (take_whole n xs (omega arith))

-- With the address and port of a server that answers the query with a well-formed reply of at most
-- 4096 bytes, in which the first HTTPS record with a configuration has the nonempty `v`, InitECH
-- without the fallback succeeds, and GetECHList returns `v` from then on.
pub init_ech-get :
    (net : Network) (st : EchState) (server domain head counts extra v : List ℕ)
    (answers : List Answer)
    → (has_prefix http_scheme server || has_prefix https_scheme server) ≡ false
    → contains b':' server ≡ true
    → net.exchange server (build_dns_query domain 65)
      ≡ ok (reply head counts domain 65 answers extra)
    → length (reply head counts domain 65 answers extra) ≤ 4096
    → length head ≡ 6
    → length counts ≡ 4
    → All IsLabel (split b'.' domain)
    → All IsAnswer answers
    → 0 < length answers
    → length answers < 65536
    → answers_ech answers ≡ some v
    → length v ≢ 0
    → ((init_ech net server domain false st).0 ≡ done tt)
      × (get_ech_list (init_ech net server domain false st).1 ≡ ok v)
unfolding init_ech query_ech query_dns_udp get_ech_list
init_ech-get net st server domain head counts extra v answers u c x n hh hc hl ha hp hn a z =
    let whole = take_whole 4096 (reply head counts domain 65 answers extra) n in
    let parsed = parse_dns_response-reply head counts domain 65 answers extra hh hc hl ha hp hn in
    rw (u, c, x, whole, parsed, a) (refl, rw (ne→== (length v) 0 z))

-- An error, with the state as it was; or success, with another list.
pub data Refreshed (st : EchState) : Parse (Unit {0}) × EchState → Type 0 where
  kept : (e : Error) → Refreshed st (fails e, st)
  replaced : (raw : List ℕ) → Refreshed st (done tt, record st { ech_list = raw })

abbrev Answers : Parse (List ℕ) → Type 0
Answers = Ensures (λ _. Unit {0})

weaken : (P : List ℕ → Type 0) (r : Parse (List ℕ)) → Ensures P r → Answers r
weaken P (done v) h = tt
weaken P (fails e) h = tt
weaken P panics h = elim h [ ]
weaken P stuck h = elim h [ ]

query_ech-Answers : (net : Network) (server domain : List ℕ) → Answers (query_ech net server domain)
unfolding query_ech query_dns_udp query_doh
query_ech-Answers net server domain =
    if_split Answers (has_prefix http_scheme server || has_prefix https_scheme server)
      (λ _. body (net.fetch server (build_dns_query domain type_https)))
      λ _. datagram (net.exchange _ (build_dns_query domain type_https))
  where
    datagram : (r : Result (List ℕ)) → Answers (parse_datagram r)
    datagram (err e) = tt
    datagram (ok answer) = weaken _ _ (parse_dns_response-IsPart (take udp_buffer answer))

    body : (r : Result (ℕ × List ℕ)) → Answers (parse_body r)
    body (err e) = tt
    body (ok (status, b)) =
        if_split Answers (status == 200) (λ _. weaken _ _ (parse_dns_response-IsPart b)) λ _. tt

-- RefreshECH, on any network, either returns an error and changes nothing, or returns nil and
-- replaces the list alone; it does not panic, and it does not hang.
pub refresh_ech-Refreshed : (net : Network) (st : EchState) → Refreshed st (refresh_ech net st)
unfolding refresh_ech
refresh_ech-Refreshed net st =
    by_answer (query_ech net st.dns_server st.ech_domain)
      (query_ech-Answers net st.dns_server st.ech_domain)
  where
    by_answer : (r : Parse (List ℕ)) → Answers r → Refreshed st (keep_answer r st)
    by_answer (done raw) h = replaced raw
    by_answer (fails e) h = kept e
    by_answer panics h = elim h [ ]
    by_answer stuck h = elim h [ ]

Refreshed→Ensures :
    (st : EchState) (r : Parse (Unit {0}) × EchState) → Refreshed st r → Ensures (λ _. Unit {0}) r.0
Refreshed→Ensures st r (kept e) = tt
Refreshed→Ensures st r (replaced raw) = tt

-- InitECH returns, with an error or not.
pub init_ech_returns :
    (net : Network) (dns domain : List ℕ) (fallback : Bool) (st : EchState)
    → Ensures (λ _. Unit {0}) (init_ech net dns domain fallback st).0
unfolding init_ech
init_ech_returns net dns domain true st = tt
init_ech_returns net dns domain false st = Refreshed→Ensures _ _ (refresh_ech-Refreshed net _)

-- After an InitECH that failed with nothing loaded, GetECHList is an error.
pub init_ech_fails :
    (net : Network) (dns domain : List ℕ) (e : Error) (st : EchState)
    → st.ech_list ≡ []
    → (init_ech net dns domain false st).0 ≡ fails e
    → get_ech_list (init_ech net dns domain false st).1 ≡ err not_loaded
unfolding init_ech get_ech_list
init_ech_fails net dns domain e st l h =
    let s : EchState = record st { ech_fallback = false; ech_domain = domain; dns_server = dns } in
    go (refresh_ech net s) (refresh_ech-Refreshed net s) l h
  where
    go :
        (r : Parse (Unit {0}) × EchState)
        → Refreshed (record st { ech_fallback = false; ech_domain = domain; dns_server = dns }) r
        → st.ech_list ≡ []
        → r.0 ≡ fails e
        → get_ech_list r.1 ≡ err not_loaded
    go r (kept x) l h = rw l refl
    go r (replaced raw) l h = absurd (cc h)
