-- ===== src/Client/Websocket/Hello.antt =====
-- With which encrypted client hello the client dials.
use pisaller.Base.{ℕ, ◌≡◌, refl, ap, false, some, List, [], map, Error, Result, ok}
use pisaller.Base.Int.{ℤ, is_pos}
use pisaller.Base.Parse.{fails}
use pisaller.Config.{CommonConfig}
use pisaller.Ech.Lookup.{Network, EchState, init_ech, get_ech_list}
use pisaller.Ech.Lookup.Loading.{init_ech_fails}
use pisaller.Client.Websocket.{
  Url, TlsConfig, DialPlan, ws, wss, lower, plan, with_ids, or_none, tls_config, dial_ws,
}

-- A plan with TLS that offers this list and verifies the URL's host unless that is switched off.
pub record Offers (conf : CommonConfig) (u : Url) (v : List ℕ) (r : Result DialPlan) : Type 0 where
  pub dial : DialPlan
  pub tls : TlsConfig
  pub dials : r ≡ ok dial
  pub over_tls : dial.tls ≡ some tls
  pub ech : tls.ech_list ≡ v
  pub name : tls.server_name ≡ u.hostname
  pub verifies : tls.insecure_skip_verify ≡ conf.insecure

-- Without the fallback, a URL with the scheme wss, in whatever case, is dialled with TLS that
-- offers the list that GetECHList returns.
pub dial_ws-Offers :
    (itoa : ℤ → List ℕ) (conf : CommonConfig) (st : EchState) (u : Url) (client_id v : List ℕ)
    (channel_id : ℤ)
    → map lower u.scheme ≡ wss
    → conf.fallback ≡ false
    → get_ech_list st ≡ ok v
    → Offers conf u v (dial_ws itoa conf st (ok u) client_id channel_id)
unfolding dial_ws
dial_ws-Offers itoa conf st u client_id v channel_id s f g = record {
  dial =
      plan conf (with_ids client_id (is_pos channel_id) (itoa channel_id) u.query) ws
        (some (tls_config conf st u));
  tls = tls_config conf st u;
  dials = rw s refl;
  over_tls = refl;
  ech = rw (f, g) refl;
  name = refl;
  verifies = refl;
}

-- The bug of the silent downgrade: when the configuration could not be looked up, main goes on, and
-- dialWS ignores the error of GetECHList, so that without the fallback, too, the client dials with
-- TLS that offers no encrypted client hello.
pub dial_ws-downgrades :
    (net : Network) (itoa : ℤ → List ℕ) (conf : CommonConfig) (st : EchState) (u : Url)
    (dns domain client_id : List ℕ) (channel_id : ℤ) (e : Error)
    → map lower u.scheme ≡ wss
    → conf.fallback ≡ false
    → st.ech_list ≡ []
    → (init_ech net dns domain conf.fallback st).0 ≡ fails e
    → Offers conf u []
        (dial_ws itoa conf (init_ech net dns domain conf.fallback st).1 (ok u) client_id channel_id)
unfolding dial_ws
dial_ws-downgrades net itoa conf st u dns domain client_id channel_id e s f l h = record {
  dial =
      plan conf (with_ids client_id (is_pos channel_id) (itoa channel_id) u.query) ws
        (some (tls_config conf (init_ech net dns domain conf.fallback st).1 u));
  tls = tls_config conf (init_ech net dns domain conf.fallback st).1 u;
  dials = rw s refl;
  over_tls = refl;
  ech = rw f (ap or_none (init_ech_fails net dns domain e st l (rw f at h)));
  name = refl;
  verifies = refl;
}
