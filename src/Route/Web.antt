-- ===== src/Route/Web.antt =====
-- The way of a request through the parts: from the HTTP proxy of cmd/client/main.go to the handler
-- of internal/relay/tcp.go.
use pisaller.Base.{
  ℕ, suc, arith, ◌≤◌, ◌≡◌, ◌≢◌, refl, ap, sym, ◌∙◌, ◌+◌, true, ◌||◌, ◌==◌, some, List, [], ◌∷◌,
  ◌++◌, length, ok, ltb, append_assoc, append-nil,
}
use pisaller.Stream.{Conn, M}
use pisaller.Stream.Laws.{write_healthy}
use pisaller.Protocol.Framing.{header_bytes, written_header}
use pisaller.Pool.{EchPool, open_best_stream}
use pisaller.Pool.Open.{open_tcp_stream}
use pisaller.Socks5.{ProxyConfig}
use pisaller.Http.{Request, is_authorized, target_of, send_first}
use pisaller.Http.Access.{first_of, greeting_of, handle_http-accepts}
use pisaller.Http.Tunnel.{tunnelled, tunnel_http}
use pisaller.Relay.{tcp, handle_smux_stream}
use pisaller.Relay.Streams.{handle_smux_stream-open}
use pisaller.Protocol.{write_smux_open_header}

sent_first :
    (first : List ℕ) (w : Conn)
    → w.faults ≡ []
    → send_first first w ≡ (ok tt, record w { output = w.output ++ first })
unfolding send_first
sent_first [] w f = rw (append-nil w.output) refl
sent_first (x ∷ first) w f =
    let some_bytes : ltb 0 (suc (length first)) ≡ true = ground arith in
    rw some_bytes (write_healthy (x ∷ first) w f)

-- A request reaches the relay's handler. A request with a host, from anyone without a user in the
-- configuration and else from this user with this password, opens a stream of the channel that the
-- pool chooses, which takes what is written; the relay that reads it hands it to the TCP handler
-- with the client's strategy and the request's target, and leaves it the text of the request, or
-- for a CONNECT nothing, before what the user sends later. For a CONNECT the user gets the status
-- 200, and else nothing.
pub tunnel_http-handle_smux_stream :
    (read_request : M Request) (decode : List ℕ → List ℕ) (now timeout strategy : ℕ)
    (cfg : ProxyConfig) (sent : List ℕ) (c d r : Conn) (req : Request) (between : EchPool → EchPool)
    (stream : ℕ → Conn) (p q : EchPool) (s ch : ℕ)
    → (length cfg.username == 0 || is_authorized decode cfg req.auth) ≡ true
    → length req.host ≢ 0
    → read_request
        (record c { read_deadline = some (now + timeout); write_deadline = some (now + timeout) })
      ≡ (ok req, d)
    → d.faults ≡ []
    → length (target_of req) ≤ 65535
    → open_best_stream between p ≡ (some (ok (s, ch)), q)
    → (stream s).faults ≡ []
    → (stream s).output ≡ []
    → let out = tunnel_http read_request decode now timeout cfg between stream strategy p c in
      (w : Conn) × (out.0 ≡ tunnelled ch w)
      × (handle_smux_stream (record r { input = w.output ++ sent })
          ≡ (ok (tcp strategy (target_of req)), record r { input = first_of req ++ sent }))
      × (out.2.output ≡ d.output ++ greeting_of req)
unfolding tunnel_http open_tcp_stream
tunnel_http-handle_smux_stream read_request decode now timeout strategy cfg sent c d r req between
      stream p q s ch allowed hosted e f l best fs os =
    let target = target_of req in
    let first = first_of req in
    let opened_stream : Conn = record (stream s) {
      output = (stream s).output ++ header_bytes 2 strategy target;
    } in
    let w : Conn = record opened_stream { output = opened_stream.output ++ first } in
    let u : Conn = (write_smux_open_header 3 strategy target (stream s)).1 in
    let wrote = written_header 2 strategy target (stream s) l fs in
    let bytes : w.output ++ sent
        ≡ (write_smux_open_header 2 strategy target (stream s)).1.output ++ (first ++ sent) =
      append_assoc opened_stream.output first sent
      ∙ sym (ap (λ x. x.1.output ++ (first ++ sent)) wrote) in
    let relayed =
      handle_smux_stream-open strategy target (first ++ sent) (stream s)
        (record r { input = w.output ++ sent }) (record r { input = u.output ++ (first ++ sent) }) l
        fs os bytes refl in
    let accepted =
      handle_http-accepts read_request decode now timeout cfg c d req allowed hosted e f in
    rw (accepted, best, wrote, sent_first first opened_stream fs) (w, refl, relayed.0, refl)
