-- ===== src/Client/Websocket/Dialling.antt =====
-- The dial at the end of dialWS of cmd/client/main.go. What the network, TLS and the WebSocket
-- library answer are arguments.
use pisaller.Base.{
  ℕ, ◌≡◌, ◌⊎◌, inl, inr, refl, Option, none, some, List, ◌==◌, if◌then◌else◌, Error, failure,
  Result, ok, err,
}
use pisaller.Base.Int.{ℤ}
use pisaller.Config.{CommonConfig}
use pisaller.Ech.Lookup.{EchState}
use pisaller.Client.Websocket.{Url, TlsConfig, DialPlan, dial_ws, net_dial_address}

abbrev pub token_mismatch : Error
token_mismatch = failure 81

-- What becomes of the TCP connection of a dial.
pub data Tcp : Type 0 where
  never_made : Tcp
  kept : Tcp
  shut : Tcp

-- What answers: net.DialTimeout to an address, the TLS handshake, and the library's upgrade of a
-- plan, with the status of the response if there is one.
pub record Peer : Type 0 where
  pub connect : List ℕ → Result (Unit {0})
  pub shake : TlsConfig → Result (Unit {0})
  pub upgrade : DialPlan → Result (Unit {0}) × Option ℕ

abbrev pub after_shake : Result (Unit {0}) → Result (Unit {0}) × Tcp
after_shake (err e) = (err e, shut)
after_shake (ok done_) = (ok done_, kept)

abbrev pub after_connect : Peer → TlsConfig → Result (Unit {0}) → Result (Unit {0}) × Tcp
after_connect peer tls (err e) = (err e, never_made)
after_connect peer tls (ok done_) = after_shake (peer.shake tls)

-- The function NetDialContext.
unfoldable pub net_dial :
    Peer → CommonConfig → TlsConfig → List ℕ → List ℕ → Result (Unit {0}) × Tcp
net_dial peer conf tls ip address =
    after_connect peer tls (peer.connect (net_dial_address conf ip address))

-- An error of DialContext over TLS, with the status of the response.
abbrev pub named_error : Error → Option ℕ → Error
named_error e none = e
named_error e (some status) = if status == 401 then token_mismatch else e

abbrev pub over_tls : Result (Unit {0}) × Option ℕ → Result (Unit {0})
over_tls (ok done_, status) = ok done_
over_tls (err e, status) = err (named_error e status)

-- DialContext for a plan, with the address that the library dials: over TLS it dials by
-- NetDialContext, and fails with its error.
abbrev pub dial_plan : Peer → CommonConfig → List ℕ → List ℕ → DialPlan → Result (Unit {0})
dial_plan peer conf ip address p = elim p.tls [
  | none ↦ (peer.upgrade p).0
  | some tls ↦ elim (net_dial peer conf tls ip address).0 [
    | err e ↦ over_tls (err e, none)
    | ok x ↦ over_tls (peer.upgrade p)
  ]
]

abbrev pub with_plan : Result DialPlan → (DialPlan → Result (Unit {0})) → Result (Unit {0})
with_plan (err e) dial = err e
with_plan (ok p) dial = dial p

-- dialWS as a whole.
unfoldable pub open_ws :
    Peer
    → (ℤ → List ℕ)
    → CommonConfig
    → EchState
    → Result Url
    → List ℕ
    → List ℕ
    → List ℕ
    → ℤ
    → Result (Unit {0})
open_ws peer itoa conf st url ip address client_id channel_id =
    with_plan (dial_ws itoa conf st url client_id channel_id) (dial_plan peer conf ip address)

-- The TCP connection stays open exactly if NetDialContext succeeds.
abbrev pub Fits : Result (Unit {0}) × Tcp → Type 0
Fits (ok done_, tcp) = tcp ≡ kept
Fits (err e, tcp) = (tcp ≡ never_made) ⊎ (tcp ≡ shut)

-- Whatever the network and the TLS handshake answer, NetDialContext leaves its TCP connection open
-- if it succeeds, and else has made none or has closed it.
pub net_dial-Fits :
    (peer : Peer) (conf : CommonConfig) (tls : TlsConfig) (ip address : List ℕ)
    → Fits (net_dial peer conf tls ip address)
unfolding net_dial
net_dial-Fits peer conf tls ip address = connected (peer.connect (net_dial_address conf ip address))
  where
    shaken : (s : Result (Unit {0})) → Fits (after_shake s)
    shaken (err e) = inr refl
    shaken (ok done_) = refl

    connected : (c : Result (Unit {0})) → Fits (after_connect peer tls c)
    connected (err e) = inl refl
    connected (ok done_) = shaken (peer.shake tls)
