-- ===== src/Socks5/Request.antt =====
-- A client that speaks the protocol: what the handler answers, and where it is led.
use pisaller.Base.{
  ℕ, ◌+◌, ◌/◌, ◌%◌, ◌≡◌, ◌≢◌, refl, ap, ◌∙◌, true, List, [], ◌∷◌, ◌++◌, length, replicate, ne→==,
  append_assoc, ok, some, none, take-append_self, drop-append_self,
}
use pisaller.Base.Bytes.{uint16-put}
use pisaller.Base.Text.{list_eq_refl, contains, join_host_port}
use pisaller.Stream.{Conn}
use pisaller.Stream.Laws.{read_full-append, write_healthy}
use pisaller.Address.{IpText}
use pisaller.Socks.{port_text}
use pisaller.Socks5.{
  ProxyConfig, write_quiet, read_padded, user_pass_auth, choose_method, negotiate, read_target,
  is_barred, connect, read_request, handle_socks5,
}
use pisaller.Socks5.Auth.{credentials}

read_padded-append :
    (n : ℕ) (xs rest : List ℕ) (c : Conn)
    → n ≡ length xs
    → c.input ≡ xs ++ rest
    → read_padded n c ≡ (ok xs, record c { input = rest })
unfolding read_padded
read_padded-append n xs rest c e h =
    rw (h, e, append_assoc xs rest (replicate (length xs) 0))
      (rw (take-append_self xs (rest ++ replicate (length xs) 0), drop-append_self xs rest))

pub write_quiet_healthy :
    (p : List ℕ) (c : Conn)
    → c.faults ≡ []
    → write_quiet p c ≡ (ok tt, record c { output = c.output ++ p })
unfolding write_quiet
write_quiet_healthy p c h = rw (write_healthy p c h)

user_pass_auth-sent :
    (cfg : ProxyConfig) (rest : List ℕ) (c : Conn)
    → c.faults ≡ []
    → c.input ≡ credentials cfg ++ rest
    → user_pass_auth cfg c
      ≡ (ok tt, record c { input = rest; output = c.output ++ (0x01 ∷ 0x00 ∷ []) })
unfolding user_pass_auth
user_pass_auth-sent cfg rest c f h =
    let u = cfg.username in
    let p = cfg.password in
    let all_sent = h ∙ ap (λ x. 0x01 ∷ length u ∷ x) (append_assoc u (length p ∷ p) rest) in
    rw (read_full-append 2 (0x01 ∷ length u ∷ []) (u ++ (length p ∷ (p ++ rest))) c refl all_sent) (
      rw
        (read_full-append (length u) u (length p ∷ (p ++ rest))
          (record c { input = u ++ (length p ∷ (p ++ rest)) }) refl refl)
        (rw
          (
            read_full-append 1 (length p ∷ []) (p ++ rest)
                (record c { input = length p ∷ (p ++ rest) }) refl refl,
            read_full-append (length p) p rest (record c { input = p ++ rest }) refl refl,
            list_eq_refl u,
            list_eq_refl p,
          )
          (write_quiet_healthy (0x01 ∷ 0x00 ∷ []) (record c { input = rest }) f)))

-- The bytes of a client that offers `methods` and asks for a TCP connection to a name.
abbrev pub request_bytes : List ℕ → ℕ → List ℕ → List ℕ
request_bytes h port rest =
    0x05 ∷ 0x01 ∷ 0x00 ∷ 0x03 ∷ length h ∷ (h ++ (port / 256 ∷ port % 256 ∷ rest))

read_request-sent :
    (ips : IpText) (strategy : ℕ) (h rest : List ℕ) (port : ℕ) (c : Conn)
    → strategy ≢ 0x01
    → strategy ≢ 0x02
    → c.input ≡ request_bytes h port rest
    → read_request ips strategy c ≡ (
      ok (connect (join_host_port h (port_text port))),
      record c { input = rest; read_deadline = none; write_deadline = none },
    )
unfolding read_request read_target is_barred
read_request-sent ips strategy h rest port c n₁ n₂ e =
    let tail = port / 256 ∷ port % 256 ∷ rest in
    rw
      (
        read_full-append 4 (0x05 ∷ 0x01 ∷ 0x00 ∷ 0x03 ∷ []) (length h ∷ (h ++ tail)) c refl e,
        read_padded-append 1 (length h ∷ []) (h ++ tail)
            (record c { input = length h ∷ (h ++ tail) }) refl refl,
      )
      (rw
        (
          read_padded-append (length h) h tail (record c { input = h ++ tail }) refl refl,
          read_padded-append 2 (port / 256 ∷ port % 256 ∷ []) rest (record c { input = tail }) refl
              refl,
          ne→== strategy 0x01 n₁,
          ne→== strategy 0x02 n₂,
        )
        (rw (uint16-put port)))

-- With a user in the configuration, a client that offers user and password among its methods, sends
-- the right ones, and asks for a TCP connection to a name is led to that name and port, under any
-- strategy but the two for one family, on a connection that takes the replies: these are 5, 2 and
-- 1, 0. What the client sent behind the request stays unread, and no deadline stays set.
pub handle_socks5-connect :
    (ips : IpText) (now timeout strategy : ℕ) (cfg : ProxyConfig) (methods h rest : List ℕ)
    (port : ℕ) (c : Conn)
    → strategy ≢ 0x01
    → strategy ≢ 0x02
    → length cfg.username ≢ 0
    → contains 0x02 methods ≡ true
    → c.faults ≡ []
    → c.input ≡ 0x05 ∷ length methods ∷ (methods ++ (credentials cfg ++ request_bytes h port rest))
    → handle_socks5 ips now timeout strategy cfg c ≡ (
      ok (connect (join_host_port h (port_text port))),
      record c {
        input = rest;
        output = (c.output ++ (0x05 ∷ 0x02 ∷ [])) ++ (0x01 ∷ 0x00 ∷ []);
        read_deadline = none;
        write_deadline = none;
      },
    )
unfolding handle_socks5 negotiate choose_method
handle_socks5-connect ips now timeout strategy cfg methods h rest port c n₁ n₂ named offered f e =
    let request = request_bytes h port rest in
    let c₀ : Conn = record c {
      read_deadline = some (now + timeout);
      write_deadline = some (now + timeout);
    } in
    let c₁ : Conn = record c₀ { input = credentials cfg ++ request } in
    let c₂ : Conn = record c₁ { output = c.output ++ (0x05 ∷ 0x02 ∷ []) } in
    rw
      (
        read_full-append 2 (0x05 ∷ length methods ∷ []) (methods ++ (credentials cfg ++ request)) c₀
            refl e,
        read_full-append (length methods) methods (credentials cfg ++ request)
            (record c₀ { input = methods ++ (credentials cfg ++ request) }) refl refl,
      )
      (rw (ne→== (length cfg.username) 0 named, offered)
        (rw (write_quiet_healthy (0x05 ∷ 0x02 ∷ []) c₁ f) (
          rw (user_pass_auth-sent cfg request c₂ f refl) (
            read_request-sent ips strategy h rest port
              (record c₂ { input = request; output = c₂.output ++ (0x01 ∷ 0x00 ∷ []) }) n₁ n₂
              refl))))

-- Without a user in the configuration the greeting asks for nothing, if the client offers that.
pub negotiate_open :
    (cfg : ProxyConfig) (methods rest : List ℕ) (c : Conn)
    → cfg.username ≡ []
    → contains 0x00 methods ≡ true
    → c.faults ≡ []
    → c.input ≡ 0x05 ∷ length methods ∷ (methods ++ rest)
    → negotiate cfg c ≡ (ok tt, record c { input = rest; output = c.output ++ (0x05 ∷ 0x00 ∷ []) })
unfolding negotiate choose_method
negotiate_open cfg methods rest c unnamed offered f i =
    rw
      (
        read_full-append 2 (0x05 ∷ length methods ∷ []) (methods ++ rest) c refl i,
        read_full-append (length methods) methods rest (record c { input = methods ++ rest }) refl
            refl,
        unnamed,
        offered,
      )
      (write_quiet_healthy (0x05 ∷ 0x00 ∷ []) (record c { input = rest }) f)
