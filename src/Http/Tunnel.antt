-- ===== src/Http/Tunnel.antt =====
-- The rest of handleHTTP: a stream for the target, and what is sent on it before proxyConn takes
-- over.
use pisaller.Base.{ℕ, List, Error, Result, ok, err}
use pisaller.Stream.{Conn, M}
use pisaller.Pool.{EchPool}
use pisaller.Pool.Open.{Opened, crashes, unopened, opened, open_tcp_stream}
use pisaller.Socks5.{ProxyConfig}
use pisaller.Http.{Request, handle_http, send_first}

-- How it ends: without a target; by the panic of the choice; without a stream; with a stream that
-- is closed because it did not take the first bytes; or with the number of a channel and a stream
-- for proxyConn.
pub data Tunnel : Type 0 where
  no_target : Error → Tunnel
  crashed : Tunnel
  no_stream : Error → Tunnel
  cut : Error → Tunnel
  tunnelled : ℕ → Conn → Tunnel

abbrev pub with_first : ℕ → Result (Unit {0}) × Conn → Tunnel
with_first ch (ok done_, w) = tunnelled ch w
with_first ch (err e, w) = cut e

abbrev pub on_opened : List ℕ → Opened → Tunnel
on_opened first crashes = crashed
on_opened first (unopened e) = no_stream e
on_opened first (opened ch w) = with_first ch (send_first first w)

abbrev pub after_request :
    (EchPool → EchPool)
    → (ℕ → Conn)
    → ℕ
    → EchPool
    → Result (List ℕ × List ℕ) × Conn
    → Tunnel × EchPool × Conn
after_request between stream strategy p (err e, c) = (no_target e, p, c)
after_request between stream strategy p (ok (target, first), c) =
    let r = open_tcp_stream between stream strategy target p in (on_opened first r.0, r.1, c)

-- handleHTTP up to proxyConn.
unfoldable pub tunnel_http :
    M Request
    → (List ℕ → List ℕ)
    → ℕ
    → ℕ
    → ProxyConfig
    → (EchPool → EchPool)
    → (ℕ → Conn)
    → ℕ
    → EchPool
    → Conn
    → Tunnel × EchPool × Conn
tunnel_http read_request decode now timeout cfg between stream strategy p c =
    after_request between stream strategy p (handle_http read_request decode now timeout cfg c)
