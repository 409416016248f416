-- ===== src/Http.antt =====
-- The HTTP proxy of cmd/client/main.go: handleHTTP up to the tunnel. http.ReadRequest is a
-- parameter, which takes a request off the connection, and so is the decoder of base64, which gives
-- what it could decode.
pub mod Access
pub mod Target
pub mod Tunnel
mod Examples
use pisaller.Base.{
  ℕ, ◌+◌, ◌≡◌, Bool, true, false, not, ◌&&◌, Option, none, some, List, [], ◌∷◌, ◌++◌, length, drop,
  ◌==◌, ltb, if◌then◌else◌, Error, Result, ok, err,
}
use pisaller.Base.Text.{list_eq, contains, has_prefix, split_first}
use pisaller.Stream.{Conn, M, ◌>>=◌, ◌>>◌, bind_result, return, fail, write}
use pisaller.Socks5.{ProxyConfig, refused, write_quiet, set_deadline}

-- What the code takes from a request: its method, its host, its header Proxy-Authorization, and the
-- text that its Write makes of it, without scheme and host.
pub record Request : Type 0 where
  pub method : List ℕ
  pub host : List ℕ
  pub auth : List ℕ
  pub text : List ℕ

-- "Basic "
abbrev pub basic : List ℕ
basic = b'B' ∷ b'a' ∷ b's' ∷ b'i' ∷ b'c' ∷ 0x20 ∷ []

-- "CONNECT"
abbrev pub connect_method : List ℕ
connect_method = b'C' ∷ b'O' ∷ b'N' ∷ b'N' ∷ b'E' ∷ b'C' ∷ b'T' ∷ []

-- ":443" and ":80"
abbrev pub https_port : List ℕ
https_port = b':' ∷ b'4' ∷ b'4' ∷ b'3' ∷ []

abbrev pub http_port : List ℕ
http_port = b':' ∷ b'8' ∷ b'0' ∷ []

-- The answers with the status 407 and 200.
abbrev pub status_407 : List ℕ
status_407 =
    b'H' ∷ b'T' ∷ b'T' ∷ b'P' ∷ b'/' ∷ b'1' ∷ b'.' ∷ b'1' ∷ 0x20 ∷ b'4' ∷ b'0' ∷ b'7' ∷ 0x20 ∷ 0xE9
    ∷ 0x9C ∷ 0x80 ∷ 0xE8 ∷ 0xA6 ∷ 0x81 ∷ 0xE8 ∷ 0xAE ∷ 0xA4 ∷ 0xE8 ∷ 0xAF ∷ 0x81 ∷ 0x0D ∷ 0x0A
    ∷ b'P' ∷ b'r' ∷ b'o' ∷ b'x' ∷ b'y' ∷ b'-' ∷ b'A' ∷ b'u' ∷ b't' ∷ b'h' ∷ b'e' ∷ b'n' ∷ b't'
    ∷ b'i' ∷ b'c' ∷ b'a' ∷ b't' ∷ b'e' ∷ b':' ∷ 0x20 ∷ b'B' ∷ b'a' ∷ b's' ∷ b'i' ∷ b'c' ∷ 0x20
    ∷ b'r' ∷ b'e' ∷ b'a' ∷ b'l' ∷ b'm' ∷ b'=' ∷ 0x22 ∷ 0xE4 ∷ 0xBB ∷ 0xA3 ∷ 0xE7 ∷ 0x90 ∷ 0x86
    ∷ 0x22 ∷ 0x0D ∷ 0x0A ∷ 0x0D ∷ 0x0A ∷ []

abbrev pub status_200 : List ℕ
status_200 =
    b'H' ∷ b'T' ∷ b'T' ∷ b'P' ∷ b'/' ∷ b'1' ∷ b'.' ∷ b'1' ∷ 0x20 ∷ b'2' ∷ b'0' ∷ b'0' ∷ 0x20 ∷ 0xE8
    ∷ 0xBF ∷ 0x9E ∷ 0xE6 ∷ 0x8E ∷ 0xA5 ∷ 0xE5 ∷ 0xB7 ∷ 0xB2 ∷ 0xE5 ∷ 0xBB ∷ 0xBA ∷ 0xE7 ∷ 0xAB
    ∷ 0x8B ∷ 0x0D ∷ 0x0A ∷ 0x0D ∷ 0x0A ∷ []

-- The comparison of the user and the password.
unfoldable pub is_authorized : (List ℕ → List ℕ) → ProxyConfig → List ℕ → Bool
unfolding has_prefix contains split_first
is_authorized decode cfg auth =
    let p = decode (drop (length basic) auth) in
    let pair = split_first b':' p in
    has_prefix basic auth
    && (contains b':' p && (list_eq pair.0 cfg.username && list_eq pair.1 cfg.password))

-- The target with its port.
unfoldable pub target_of : Request → List ℕ
unfolding contains
target_of req =
    if contains b':' req.host
    then req.host
    else if list_eq req.method connect_method
    then req.host ++ https_port
    else req.host ++ http_port

-- The target, and what is sent to it first; a CONNECT is answered at once.
unfoldable pub accept_request : Request → M (List ℕ × List ℕ)
unfolding target_of
accept_request req =
    if length req.host == 0
    then fail refused
    else if list_eq req.method connect_method
    then (write_quiet status_200 >> return (target_of req, []))
    else return (target_of req, req.text)

unfoldable pub admit : (List ℕ → List ℕ) → ProxyConfig → Request → M (List ℕ × List ℕ)
unfolding is_authorized accept_request
admit decode cfg req =
    if not (length cfg.username == 0) && not (is_authorized decode cfg req.auth)
    then (write_quiet status_407 >> fail refused)
    else accept_request req

-- handleHTTP up to the choice of a stream.
unfoldable pub handle_http :
    M Request → (List ℕ → List ℕ) → ℕ → ℕ → ProxyConfig → M (List ℕ × List ℕ)
unfolding admit
handle_http read_request decode now timeout cfg = do
  set_deadline (some (now + timeout))
  req ← read_request
  set_deadline none
  admit decode cfg req

-- What goes out on the stream that was opened, before the tunnel.
unfoldable pub send_first : List ℕ → M (Unit {0})
send_first first c = if ltb 0 (length first) then write first c else (ok tt, c)
