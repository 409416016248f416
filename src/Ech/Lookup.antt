-- ===== src/Ech/Lookup.antt =====
-- The DNS client of internal/transport/ech.go around the parser: where a query goes, and the list
-- that is kept. What a server answers is a parameter: `exchange` sends a datagram to an address and
-- waits for one, and `fetch` asks a URL, with the query as its parameter `dns`, for a status and a
-- body.
pub mod Loading
mod Examples
use pisaller.Base.{
  ℕ, ◌≡◌, Bool, true, false, ◌||◌, List, [], ◌∷◌, ◌++◌, length, take, ◌==◌, if◌then◌else◌, Error,
  failure, Result, ok, err,
}
use pisaller.Base.Parse.{Parse, done, fails, panics, stuck}
use pisaller.Base.Text.{contains, has_prefix}
use pisaller.Ech.{type_https, build_dns_query, parse_dns_response}

pub record Network : Type 0 where
  pub exchange : List ℕ → List ℕ → Result (List ℕ)
  pub fetch : List ℕ → List ℕ → Result (ℕ × List ℕ)

-- The package's variables.
pub record EchState : Type 0 where
  pub ech_list : List ℕ
  pub ech_fallback : Bool
  pub ech_domain : List ℕ
  pub dns_server : List ℕ

abbrev pub bad_status : Error
bad_status = failure 50

abbrev pub not_loaded : Error
not_loaded = failure 51

-- The buffer of queryDNSUDP.
abbrev pub udp_buffer : ℕ
udp_buffer = 4096

abbrev pub http_scheme : List ℕ
http_scheme = b'h' ∷ b't' ∷ b't' ∷ b'p' ∷ b':' ∷ b'/' ∷ b'/' ∷ []

abbrev pub https_scheme : List ℕ
https_scheme = b'h' ∷ b't' ∷ b't' ∷ b'p' ∷ b's' ∷ b':' ∷ b'/' ∷ b'/' ∷ []

abbrev pub parse_datagram : Result (List ℕ) → Parse (List ℕ)
parse_datagram (err e) = fails e
parse_datagram (ok answer) = parse_dns_response (take udp_buffer answer)

unfoldable pub query_dns_udp : Network → List ℕ → List ℕ → Parse (List ℕ)
query_dns_udp net domain server =
    let address = if contains b':' server then server else server ++ (b':' ∷ b'5' ∷ b'3' ∷ []) in
    parse_datagram (net.exchange address (build_dns_query domain type_https))

abbrev pub parse_body : Result (ℕ × List ℕ) → Parse (List ℕ)
parse_body (err e) = fails e
parse_body (ok (status, body)) = if status == 200 then parse_dns_response body else fails bad_status

pub query_doh : Network → List ℕ → List ℕ → Parse (List ℕ)
query_doh net domain url = parse_body (net.fetch url (build_dns_query domain type_https))

unfoldable pub query_ech : Network → List ℕ → List ℕ → Parse (List ℕ)
query_ech net server domain =
    if has_prefix http_scheme server || has_prefix https_scheme server
    then query_doh net domain server
    else query_dns_udp net domain server

-- The rest of RefreshECH: only an answer replaces the list.
abbrev pub keep_answer : Parse (List ℕ) → EchState → Parse (Unit {0}) × EchState
keep_answer (done raw) st = (done tt, record st { ech_list = raw })
keep_answer (fails e) st = (fails e, st)
keep_answer panics st = (panics, st)
keep_answer stuck st = (stuck, st)

unfoldable pub refresh_ech : Network → EchState → Parse (Unit {0}) × EchState
refresh_ech net st = keep_answer (query_ech net st.dns_server st.ech_domain) st

unfoldable pub init_ech : Network → List ℕ → List ℕ → Bool → EchState → Parse (Unit {0}) × EchState
unfolding refresh_ech
init_ech net dns domain fallback st =
    if fallback
    then (done tt, record st { ech_fallback = fallback })
    else refresh_ech net
        (record st { ech_fallback = fallback; ech_domain = domain; dns_server = dns })

-- GetECHList; nil is [].
unfoldable pub get_ech_list : EchState → Result (List ℕ)
get_ech_list st =
    if st.ech_fallback
    then ok []
    else if length st.ech_list == 0
    then err not_loaded
    else ok st.ech_list
