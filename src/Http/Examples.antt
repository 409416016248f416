-- ===== src/Http/Examples.antt =====
-- Requests to the HTTP proxy, and the theorems at them. A decoder that changes nothing stands for
-- base64.
use pisaller.Base.{ℕ, ◌≡◌, ◌↔◌, refl, none, true, List, [], ◌∷◌, ◌++◌, eof, ok}
use pisaller.Base.Text.{contains}
use pisaller.Stream.{Conn, M, write_by}
use pisaller.Socks5.{ProxyConfig, refused}
use pisaller.Http.{Request, basic, connect_method, is_authorized, handle_http, send_first}
use pisaller.Http.Access.{Authorizes, is_authorized_iff}

abbrev identity : List ℕ → List ℕ
identity b = b

abbrev cfg : ProxyConfig
cfg = record { username = b'u' ∷ []; password = b'p' ∷ []; host = [] }

abbrev open_cfg : ProxyConfig
open_cfg = record { username = []; password = []; host = [] }

-- "Basic u:p"
abbrev right : List ℕ
right = basic ++ (b'u' ∷ b':' ∷ b'p' ∷ [])

abbrev request : Request
request = record { method = connect_method; host = b'h' ∷ []; auth = []; text = [] }

-- "[::1]"
abbrev loopback : Request
loopback = record {
  method = b'G' ∷ [];
  host = b'[' ∷ b':' ∷ b':' ∷ b'1' ∷ b']' ∷ [];
  auth = [];
  text = b'G' ∷ [];
}

abbrev ask : Request → M Request
ask req c = (ok req, c)

abbrev conn : Conn
conn = record {
  input = [];
  ending = eof;
  output = [];
  faults = [];
  read_deadline = none;
  write_deadline = none;
}

accepted : is_authorized identity cfg right ≡ true
unfolding is_authorized
accepted = refl

tunnelled :
    (handle_http (ask request) identity 0 5 open_cfg conn).0
    ≡ ok (b'h' ∷ b':' ∷ b'4' ∷ b'4' ∷ b'3' ∷ [], [])
unfolding handle_http pisaller.Socks5.write_quiet write_by pisaller.Stream.write
tunnelled = refl

sent_first : (send_first (b'G' ∷ []) conn).1.output ≡ b'G' ∷ []
unfolding send_first pisaller.Stream.write write_by
sent_first = refl

is_authorized_iff_example : is_authorized identity cfg right ≡ true ↔ Authorizes identity cfg right
unfolding contains
is_authorized_iff_example = is_authorized_iff identity cfg right refl
