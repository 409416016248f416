-- ===== src/Listen.antt =====
-- The two listeners of cmd/client/main.go: runSOCKS5 and runHTTP. What net.Listen and Accept answer
-- is a parameter.
pub mod Credentials
pub mod Accepting
mod Examples
use pisaller.Base.{
  ℕ, ◌≡◌, Bool, true, false, List, [], ◌∷◌, ◌++◌, length, drop, ◌==◌, if◌then◌else◌, Error, Result,
  ok, err,
}
use pisaller.Base.Text.{has_prefix}
use pisaller.Socks.{parse_auth_and_addr}
use pisaller.Socks5.{ProxyConfig}

-- "socks5://" and "http://"
abbrev pub socks5_scheme : List ℕ
socks5_scheme = b's' ∷ b'o' ∷ b'c' ∷ b'k' ∷ b's' ∷ b'5' ∷ b':' ∷ b'/' ∷ b'/' ∷ []

abbrev pub http_scheme : List ℕ
http_scheme = b'h' ∷ b't' ∷ b't' ∷ b'p' ∷ b':' ∷ b'/' ∷ b'/' ∷ []

-- strings.TrimPrefix
unfoldable pub trim_prefix : List ℕ → List ℕ → List ℕ
unfolding has_prefix
trim_prefix p s = if has_prefix p s then drop (length p) s else s

unfoldable pub proxy_config : List ℕ → List ℕ → ProxyConfig
unfolding trim_prefix parse_auth_and_addr
proxy_config scheme addr =
    let parts = parse_auth_and_addr (trim_prefix scheme addr) in
    record { username = parts.1; password = parts.2; host = parts.0 }

-- What Accept answers: a connection, the error of a closed listener, or another error.
pub data AcceptResult : Type 0 where
  accepts : ℕ → AcceptResult
  listener_closed : AcceptResult
  accept_fails : AcceptResult

-- The connections that get a handler, and whether the loop has returned.
unfoldable pub accept_loop : List AcceptResult → List ℕ × Bool
accept_loop [] = ([], false)
accept_loop (accepts conn ∷ more) = let rest = accept_loop more in (conn ∷ rest.0, rest.1)
accept_loop (listener_closed ∷ more) = ([], true)
accept_loop (accept_fails ∷ more) = accept_loop more

-- What becomes of a listener: nothing without an address, the end of the process, or a loop.
pub data Listener : Type 0 where
  idle : Listener
  fatal : Error → Listener
  serves : ProxyConfig → List ℕ → Bool → Listener

abbrev pub serve_on : Result (Unit {0}) → ProxyConfig → List AcceptResult → Listener
serve_on (err e) cfg answers = fatal e
serve_on (ok done_) cfg answers = let r = accept_loop answers in serves cfg r.0 r.1

-- Both listeners, which listen on the address of their configuration.
abbrev pub run_listener :
    List ℕ → (List ℕ → Result (Unit {0})) → List ℕ → List AcceptResult → Listener
run_listener scheme listen addr answers =
    let cfg = proxy_config scheme addr in
    if length addr == 0 then idle else serve_on (listen cfg.host) cfg answers

unfoldable pub run_socks5 : (List ℕ → Result (Unit {0})) → List ℕ → List AcceptResult → Listener
unfolding proxy_config accept_loop
run_socks5 listen addr answers = run_listener socks5_scheme listen addr answers

unfoldable pub run_http : (List ℕ → Result (Unit {0})) → List ℕ → List AcceptResult → Listener
unfolding proxy_config accept_loop
run_http listen addr answers = run_listener http_scheme listen addr answers
