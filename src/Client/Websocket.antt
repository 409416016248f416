-- ===== src/Client/Websocket.antt =====
-- dialWS of cmd/client/main.go: what it asks its libraries for. url.Parse is a parameter, by what
-- it answers, and so is strconv.Itoa.
pub mod Hello
pub mod Dialling
use pisaller.Base.{
  ℕ, zero, suc, ◌+◌, ◌≡◌, Bool, true, false, not, ◌&&◌, ◌||◌, Option, none, some, List, [], ◌∷◌,
  ◌++◌, length, leb, ltb, ◌==◌, map, if◌then◌else◌, Error, failure, Result, ok, err,
}
use pisaller.Base.Int.{ℤ, is_pos}
use pisaller.Base.Text.{list_eq, split_host_port, join_host_port}
use pisaller.Config.{CommonConfig}
use pisaller.Ech.Lookup.{EchState, get_ech_list}
use pisaller.Fingerprints.{ClientHello, hello_chrome_120, get_client_hello_id}

-- A URL: its scheme, its host without the port, and its query.
pub record Url : Type 0 where
  pub scheme : List ℕ
  pub hostname : List ℕ
  pub query : List (List ℕ × List ℕ)

-- The fields of utls.Config; TLS 1.3 is the least version.
pub record TlsConfig : Type 0 where
  pub server_name : List ℕ
  pub insecure_skip_verify : Bool
  pub ech_list : List ℕ
  pub client_hello : ClientHello

-- What is dialled: a URL with a query, with subprotocols, and over TLS or not.
pub record DialPlan : Type 0 where
  pub scheme : List ℕ
  pub query : List (List ℕ × List ℕ)
  pub subprotocols : List (List ℕ)
  pub tls : Option TlsConfig

abbrev pub unsupported_scheme : Error
unsupported_scheme = failure 80

abbrev pub ws : List ℕ
ws = b'w' ∷ b's' ∷ []

abbrev pub wss : List ℕ
wss = b'w' ∷ b's' ∷ b's' ∷ []

-- "client_id" and "channel_id"
abbrev pub client_id_key : List ℕ
client_id_key = b'c' ∷ b'l' ∷ b'i' ∷ b'e' ∷ b'n' ∷ b't' ∷ b'_' ∷ b'i' ∷ b'd' ∷ []

abbrev pub channel_id_key : List ℕ
channel_id_key = b'c' ∷ b'h' ∷ b'a' ∷ b'n' ∷ b'n' ∷ b'e' ∷ b'l' ∷ b'_' ∷ b'i' ∷ b'd' ∷ []

-- strings.ToLower of ASCII text.
abbrev pub lower : ℕ → ℕ
lower b = if leb b'A' b && leb b b'Z' then b + 32 else b

-- url.Values.Set: a key has one value then.
pub without_key : List ℕ → List (List ℕ × List ℕ) → List (List ℕ × List ℕ)
without_key k [] = []
without_key k ((j, v) ∷ q) =
    let rest = without_key k q in if list_eq j k then rest else (j, v) ∷ rest

abbrev pub set_key : List ℕ → List ℕ → List (List ℕ × List ℕ) → List (List ℕ × List ℕ)
set_key k v q = (k, v) ∷ without_key k q

abbrev pub with_ids : List ℕ → Bool → List ℕ → List (List ℕ × List ℕ) → List (List ℕ × List ℕ)
with_ids client_id numbered channel q =
    let named = if ltb 0 (length client_id) then set_key client_id_key client_id q else q in
    if numbered then set_key channel_id_key channel named else named

-- `echList, _ = transport.GetECHList()`, without the fallback.
abbrev pub or_none : Result (List ℕ) → List ℕ
or_none (ok v) = v
or_none (err e) = []

abbrev pub offered : CommonConfig → EchState → List ℕ
offered conf st = if conf.fallback then [] else or_none (get_ech_list st)

abbrev pub or_chrome : Option ClientHello → ClientHello
or_chrome none = hello_chrome_120
or_chrome (some hello) = hello

abbrev pub tls_config : CommonConfig → EchState → Url → TlsConfig
tls_config conf st u = record {
  server_name = u.hostname;
  insecure_skip_verify = conf.insecure;
  ech_list = offered conf st;
  client_hello = or_chrome (get_client_hello_id conf.utls_fingerprint);
}

abbrev pub plan : CommonConfig → List (List ℕ × List ℕ) → List ℕ → Option TlsConfig → DialPlan
plan conf q scheme tls = record {
  scheme = scheme;
  query = q;
  subprotocols = if ltb 0 (length conf.token) then conf.token ∷ [] else [];
  tls = tls;
}

-- dialWS up to the dial. A URL over TLS is dialled as one without, whose connections do TLS
-- themselves.
unfoldable pub dial_ws :
    (ℤ → List ℕ) → CommonConfig → EchState → Result Url → List ℕ → ℤ → Result DialPlan
dial_ws itoa conf st (err e) client_id channel_id = err e
dial_ws itoa conf st (ok u) client_id channel_id =
    let scheme = map lower u.scheme in
    let q = with_ids client_id (is_pos channel_id) (itoa channel_id) u.query in
    if list_eq scheme wss
    then ok (plan conf q ws (some (tls_config conf st u)))
    else if list_eq scheme ws
    then ok (plan conf q u.scheme none)
    else err unsupported_scheme

-- The address that NetDialContext dials for `address`: another host goes before the address's own.
abbrev pub address_parts : Option (List ℕ × List ℕ) → List ℕ × List ℕ
address_parts none = ([], [])
address_parts (some parts) = parts

unfoldable pub net_dial_address : CommonConfig → List ℕ → List ℕ → List ℕ
net_dial_address conf ip address =
    let parts = address_parts (split_host_port address) in
    let host =
      if ltb 0 (length ip)
      then ip
      else if ltb 0 (length conf.ip_override)
      then conf.ip_override
      else parts.0 in
    join_host_port host parts.1
