-- ===== src/Http/Access.antt =====
-- Who may use the HTTP proxy.
use pisaller.Base.{
  ℕ, ◌+◌, ◌≡◌, ◌≢◌, ◌↔◌, refl, ap, ◌∙◌, true, false, some, List, [], ◌∷◌, ◌++◌, length, drop, ok,
  err, none, ne→==, Bool, Bool-cases, not, ◌&&◌, ◌||◌, ◌==◌, append-nil, if◌then◌else◌, inl, inr,
}
use pisaller.Base.Text.{
  list_eq, list_eq→eq, list_eq_refl, both, contains, has_prefix, has_prefix→append,
  has_prefix-append, drop-append, split_first, split_first-join, split_first-append,
}
use pisaller.Stream.{Conn, M}
use pisaller.Socks5.{ProxyConfig, refused}
use pisaller.Socks5.Request.{write_quiet_healthy}
use pisaller.Http.{
  Request, basic, status_407, status_200, connect_method, is_authorized, target_of, accept_request,
  admit, handle_http,
}

-- The header that RFC 7617 asks for.
abbrev pub Authorizes : (List ℕ → List ℕ) → ProxyConfig → List ℕ → Type 0
Authorizes decode cfg auth =
    (code : List ℕ) × (auth ≡ basic ++ code) × (decode code ≡ cfg.username ++ (b':' ∷ cfg.password))

is_authorized-Authorizes :
    (decode : List ℕ → List ℕ) (cfg : ProxyConfig) (auth : List ℕ)
    → is_authorized decode cfg auth ≡ true
    → Authorizes decode cfg auth
unfolding is_authorized
is_authorized-Authorizes decode cfg auth h =
    let p = decode (drop (length basic) auth) in
    let (start, rest) = both (has_prefix basic auth) _ h in
    let (colon, pair) = both (contains b':' p) _ rest in
    let (user, pass) = both (list_eq (split_first b':' p).0 cfg.username) _ pair in
    (
      drop (length basic) auth,
      has_prefix→append basic auth start,
      split_first-join b':' p colon
          ∙ cc (list_eq→eq _ cfg.username user, list_eq→eq _ cfg.password pass),
    )

Authorizes-is_authorized :
    (decode : List ℕ → List ℕ) (cfg : ProxyConfig) (auth : List ℕ)
    → contains b':' cfg.username ≡ false
    → Authorizes decode cfg auth
    → is_authorized decode cfg auth ≡ true
unfolding is_authorized
Authorizes-is_authorized decode cfg auth plain (code, e, d) =
    let (colon, pair) = split_first-append b':' cfg.username cfg.password plain in
    let text : drop (length basic) auth ≡ code =
      ap (drop (length basic)) e ∙ drop-append basic code in
    rw (text, d, colon, pair, list_eq_refl cfg.username, list_eq_refl cfg.password)
      (rw e (rw (has_prefix-append basic code) refl))

-- For a user whose name has no colon, the header is accepted if and only if it is `Basic` with a
-- text that decodes to this user and this password.
pub is_authorized_iff :
    (decode : List ℕ → List ℕ) (cfg : ProxyConfig) (auth : List ℕ)
    → contains b':' cfg.username ≡ false
    → (is_authorized decode cfg auth ≡ true ↔ Authorizes decode cfg auth)
is_authorized_iff decode cfg auth plain =
    (is_authorized-Authorizes decode cfg auth, Authorizes-is_authorized decode cfg auth plain)

-- With a user in the configuration, a request without this user and this password leads to no
-- target: the proxy answers 407 and nothing else.
pub handle_http-rejects :
    (read_request : M Request) (decode : List ℕ → List ℕ) (now timeout : ℕ) (cfg : ProxyConfig)
    (c d : Conn) (req : Request)
    → length cfg.username ≢ 0
    → is_authorized decode cfg req.auth ≡ false
    → read_request
        (record c { read_deadline = some (now + timeout); write_deadline = some (now + timeout) })
      ≡ (ok req, d)
    → d.faults ≡ []
    → handle_http read_request decode now timeout cfg c ≡ (
      err refused,
      record d { read_deadline = none; write_deadline = none; output = d.output ++ status_407 },
    )
unfolding handle_http admit
handle_http-rejects read_request decode now timeout cfg c d req named wrong e f = rw e (
    rw (ne→== (length cfg.username) 0 named, wrong)
      (rw
        (write_quiet_healthy status_407 (record d { read_deadline = none; write_deadline = none })
          f)
        refl))

-- What is sent to the target first, and what the user gets.
abbrev pub first_of : Request → List ℕ
first_of req = if list_eq req.method connect_method then [] else req.text

abbrev pub greeting_of : Request → List ℕ
greeting_of req = if list_eq req.method connect_method then status_200 else []

-- A request with a host, from anyone without a user in the configuration and else from this user
-- with this password, leads to its target.
pub handle_http-accepts :
    (read_request : M Request) (decode : List ℕ → List ℕ) (now timeout : ℕ) (cfg : ProxyConfig)
    (c d : Conn) (req : Request)
    → (length cfg.username == 0 || is_authorized decode cfg req.auth) ≡ true
    → length req.host ≢ 0
    → read_request
        (record c { read_deadline = some (now + timeout); write_deadline = some (now + timeout) })
      ≡ (ok req, d)
    → d.faults ≡ []
    → handle_http read_request decode now timeout cfg c ≡ (
      ok (target_of req, first_of req),
      record d {
        read_deadline = none;
        write_deadline = none;
        output = d.output ++ greeting_of req;
      },
    )
unfolding handle_http admit accept_request
handle_http-accepts read_request decode now timeout cfg c d req allowed hosted e f =
    let quiet : Conn = record d { read_deadline = none; write_deadline = none } in
    let guard : (not (length cfg.username == 0) && not (is_authorized decode cfg req.auth))
        ≡ false =
      admitted (length cfg.username == 0) (is_authorized decode cfg req.auth) allowed in
    rw e (
      rw (guard, ne→== (length req.host) 0 hosted)
        (elim (Bool-cases (list_eq req.method connect_method)) [
          | inl connects ↦ rw connects (rw (write_quiet_healthy status_200 quiet f) refl)
          | inr plain ↦ rw (plain, append-nil d.output) refl
        ]))
  where
    admitted : (u b : Bool) → (u || b) ≡ true → (not u && not b) ≡ false
    admitted true b h = refl
    admitted false true h = refl
    admitted false false h = absurd (cc h)
