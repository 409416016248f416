-- ===== src/Socks5/Examples.antt =====
-- Conversations, and the theorems at them.
use pisaller.Base.{ℕ, ◌≡◌, refl, List, [], ◌∷◌, none, eof, ok, err, arith, Option}
use pisaller.Base.Text.{contains, join_host_port}
use pisaller.Stream.{Conn, read_full, write}
use pisaller.Address.{IpText}
use pisaller.Socks.{decimal}
use pisaller.Socks5.{
  ProxyConfig, connect, refused, negotiate, choose_method, user_pass_auth, write_quiet, read_padded,
  read_target, read_request, is_barred,
}
use pisaller.Socks5.Auth.{Greets, negotiate-Greets}

abbrev nothing : List ℕ → Option (List ℕ)
nothing _ = none

abbrev ips : IpText
ips = record { format = λ ip. ip; parse = nothing }

abbrev conn : List ℕ → List ℕ → Conn
conn waiting sent = record {
  input = waiting;
  ending = eof;
  output = sent;
  faults = [];
  read_deadline = none;
  write_deadline = none;
}

-- The user "u" with the password "p".
abbrev cfg : ProxyConfig
cfg = record { username = 0x75 ∷ []; password = 0x70 ∷ []; host = [] }

abbrev greeting : List ℕ
greeting = 5 ∷ 2 ∷ 0 ∷ 2 ∷ 1 ∷ 1 ∷ 0x75 ∷ 1 ∷ 0x70 ∷ 9 ∷ []

wrong_password :
    negotiate cfg (conn (5 ∷ 1 ∷ 2 ∷ 1 ∷ 1 ∷ 0x75 ∷ 1 ∷ 0x71 ∷ []) [])
    ≡ (err refused, conn [] (5 ∷ 2 ∷ 1 ∷ 1 ∷ []))
unfolding negotiate choose_method user_pass_auth write_quiet read_full write contains
wrong_password = refl

-- A request that ends behind its first four bytes is served, with zeros for the rest of it.
cut_request :
    (read_request ips 0 (conn (5 ∷ 1 ∷ 0 ∷ 1 ∷ []) [])).0
    ≡ ok (connect (0 ∷ 0 ∷ 0 ∷ 0 ∷ 0x3a ∷ 0x30 ∷ []))
unfolding read_request read_target read_padded is_barred read_full join_host_port contains decimal
cut_request = refl

negotiate-Greets_example : Greets cfg greeting (9 ∷ [])
unfolding negotiate choose_method user_pass_auth write_quiet read_full write contains
negotiate-Greets_example = negotiate-Greets cfg (conn greeting []) (λ e. omega arith)
