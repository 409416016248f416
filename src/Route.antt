-- ===== src/Route.antt =====
-- The way of a connection through the parts: from the SOCKS5 client in cmd/client/main.go to the
-- handler of internal/relay/tcp.go.
pub mod Welcome
pub mod Web
mod Examples
use pisaller.Base.{
  ℕ, ◌≤◌, ◌≡◌, ◌≢◌, refl, ap, sym, ◌∙◌, true, some, none, List, [], ◌∷◌, ◌++◌, length, replicate,
  Result, ok, err,
}
use pisaller.Base.Text.{contains, join_host_port}
use pisaller.Stream.{Conn}
use pisaller.Stream.Laws.{write_healthy}
use pisaller.Address.{IpText}
use pisaller.Socks.{port_text}
use pisaller.Protocol.Framing.{header_bytes, written_header, read_header}
use pisaller.Pool.{EchPool, open_best_stream}
use pisaller.Pool.Open.{Opened, opened, open_tcp_stream}
use pisaller.Socks5.{ProxyConfig, Command, connect, handle_socks5, connect_reply}
use pisaller.Socks5.Auth.{credentials}
use pisaller.Socks5.Request.{request_bytes, handle_socks5-connect}
use pisaller.Socks5.Connect.{handle_socks5_connect}
use pisaller.Relay.{tcp, handle_smux_stream}
use pisaller.Relay.Streams.{handle_smux_stream-open}
use pisaller.Protocol.{write_smux_open_header}

-- The connect command on a connection that takes the reply.
connected :
    (between : EchPool → EchPool) (stream : ℕ → Conn) (strategy : ℕ) (target : List ℕ)
    (p q : EchPool) (s ch : ℕ) (d : Conn)
    → length target ≤ 65535
    → open_best_stream between p ≡ (some (ok (s, ch)), q)
    → d.faults ≡ []
    → (stream s).faults ≡ []
    → handle_socks5_connect between stream strategy target p d ≡ (
      opened ch (write_smux_open_header 2 strategy target (stream s)).1,
      q,
      record d { output = d.output ++ connect_reply },
    )
unfolding handle_socks5_connect open_tcp_stream
connected between stream strategy target p q s ch d l best f fs =
    rw (write_healthy connect_reply d f)
      (rw best (rw (written_header 2 strategy target (stream s) l fs) refl))

-- A connection of a SOCKS5 client reaches the relay's handler. A client that offers user and
-- password, sends the right ones, and asks for a TCP connection to a name, under any strategy but
-- the two for one family and on a connection that takes the replies, is led to that name and port;
-- when the pool then chooses a channel whose new stream takes the open header, the relay that reads
-- this stream hands it to the TCP handler with the client's strategy, name and port, and leaves it
-- the data that follows. The user gets the replies of the handshake and the one for the connection,
-- and what it sent behind its request stays unread.
pub handle_socks5-handle_smux_stream :
    (ips : IpText) (now timeout strategy : ℕ) (cfg : ProxyConfig) (methods h rest sent : List ℕ)
    (port : ℕ) (c r : Conn) (between : EchPool → EchPool) (stream : ℕ → Conn) (p q : EchPool)
    (s ch : ℕ)
    → strategy ≢ 0x01
    → strategy ≢ 0x02
    → length cfg.username ≢ 0
    → contains 0x02 methods ≡ true
    → c.faults ≡ []
    → c.input ≡ 0x05 ∷ length methods ∷ (methods ++ (credentials cfg ++ request_bytes h port rest))
    → length (join_host_port h (port_text port)) ≤ 65535
    → open_best_stream between p ≡ (some (ok (s, ch)), q)
    → (stream s).faults ≡ []
    → (stream s).output ≡ []
    → let target = join_host_port h (port_text port) in
      let asked = handle_socks5 ips now timeout strategy cfg c in
      let out = handle_socks5_connect between stream strategy target p asked.1 in
      (w : Conn) × (asked.0 ≡ ok (connect target))
      × (out.0 ≡ opened ch w)
      × (handle_smux_stream (record r { input = w.output ++ sent })
          ≡ (ok (tcp strategy target), record r { input = sent }))
      × (out.2.input ≡ rest)
      × (out.2.output ≡ ((c.output ++ (0x05 ∷ 0x02 ∷ [])) ++ (0x01 ∷ 0x00 ∷ [])) ++ connect_reply)
handle_socks5-handle_smux_stream ips now timeout strategy cfg methods h rest sent port c r between
      stream p q s ch n₁ n₂ named offered f e l best fs os =
    let target = join_host_port h (port_text port) in
    let d : Conn = record c {
      input = rest;
      output = (c.output ++ (0x05 ∷ 0x02 ∷ [])) ++ (0x01 ∷ 0x00 ∷ []);
      read_deadline = none;
      write_deadline = none;
    } in
    let asked =
      handle_socks5-connect ips now timeout strategy cfg methods h rest port c n₁ n₂ named offered f
        e in
    let served = connected between stream strategy target p q s ch d l best f fs in
    let w : Conn = (write_smux_open_header 2 strategy target (stream s)).1 in
    let u : Conn = (write_smux_open_header 3 strategy target (stream s)).1 in
    let relayed =
      handle_smux_stream-open strategy target sent (stream s)
        (record r { input = w.output ++ sent }) (record r { input = u.output ++ sent }) l fs os refl
        refl in
    rw asked (w, refl, rw served refl, relayed.0, rw served refl, rw served refl)
