-- ===== src/Listen/Examples.antt =====
-- Addresses of listeners, and the theorems at them.
use pisaller.Base.{ℕ, ◌≡◌, refl, false, List, [], ◌∷◌, ◌++◌, none, eof, ok, err, failure, Result}
use pisaller.Base.Text.{contains, split_first}
use pisaller.Stream.{Conn}
use pisaller.Socks5.{negotiate}
use pisaller.Listen.{
  socks5_scheme, http_scheme, proxy_config, accepts, accept_fails, AcceptResult, idle, fatal,
  serves, run_socks5, run_http,
}
use pisaller.Listen.Credentials.{proxy_config_round_trip, no_colon_opens}

-- "u", "p" and "h:1"
abbrev u : List ℕ
u = b'u' ∷ []

abbrev p : List ℕ
p = b'p' ∷ []

abbrev h : List ℕ
h = b'h' ∷ b':' ∷ b'1' ∷ []

abbrev answers : List AcceptResult
answers = accepts 4 ∷ accept_fails ∷ accepts 7 ∷ []

abbrev listens : List ℕ → Result (Unit {0})
listens _ = ok tt

abbrev refuses : List ℕ → Result (Unit {0})
refuses _ = err (failure 9)

abbrev conn : Conn
conn = record {
  input = 5 ∷ 2 ∷ 2 ∷ 0 ∷ 9 ∷ [];
  ending = eof;
  output = [];
  faults = [];
  read_deadline = none;
  write_deadline = none;
}

-- A password with `@` is cut there, and its rest is taken for the host.
cut_password :
    proxy_config http_scheme (http_scheme ++ (b'u' ∷ b':' ∷ b'p' ∷ b'@' ∷ b'q' ∷ b'@' ∷ h))
    ≡ record { username = u; password = p; host = b'q' ∷ b'@' ∷ h }
unfolding proxy_config contains split_first
cut_password = refl

unused : run_http listens [] answers ≡ idle
unfolding run_http
unused = refl

taken : run_socks5 refuses h answers ≡ fatal (failure 9)
unfolding run_socks5
taken = refl

served :
    run_socks5 listens h answers
    ≡ serves (record { username = []; password = []; host = h }) (4 ∷ 7 ∷ []) false
unfolding run_socks5 contains
served = refl

proxy_config_round_trip_example :
    proxy_config socks5_scheme (socks5_scheme ++ ((u ++ (b':' ∷ p)) ++ (b'@' ∷ h)))
    ≡ record { username = u; password = p; host = h }
unfolding contains
proxy_config_round_trip_example = proxy_config_round_trip socks5_scheme u p h refl refl refl

no_colon_opens_example :
    negotiate (proxy_config socks5_scheme (socks5_scheme ++ (u ++ (b'@' ∷ h)))) conn
    ≡ (ok tt, record conn { input = 9 ∷ []; output = [] ++ (0x05 ∷ 0x00 ∷ []) })
unfolding contains
no_colon_opens_example =
    no_colon_opens socks5_scheme u h (2 ∷ 0 ∷ []) (9 ∷ []) conn refl refl refl refl refl
