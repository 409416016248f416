-- ===== src/Socks5/Connect.antt =====
-- handleSOCKS5Connect of cmd/client/main.go, up to proxyConn.
use pisaller.Base.{ℕ, List, Result, ok, err}
use pisaller.Stream.{Conn, write}
use pisaller.Pool.{EchPool}
use pisaller.Pool.Open.{Opened, unopened, open_tcp_stream}
use pisaller.Socks5.{connect_reply}

-- Behind the reply: a stream for the target, if the reply went out.
abbrev pub after_reply :
    (EchPool → EchPool)
    → (ℕ → Conn)
    → ℕ
    → List ℕ
    → EchPool
    → Result (Unit {0}) × Conn
    → Opened × EchPool × Conn
after_reply between stream strategy target p (err e, c) = (unopened e, p, c)
after_reply between stream strategy target p (ok done_, c) =
    let r = open_tcp_stream between stream strategy target p in (r.0, r.1, c)

unfoldable pub handle_socks5_connect :
    (EchPool → EchPool) → (ℕ → Conn) → ℕ → List ℕ → EchPool → Conn → Opened × EchPool × Conn
handle_socks5_connect between stream strategy target p c =
    after_reply between stream strategy target p (write connect_reply c)
