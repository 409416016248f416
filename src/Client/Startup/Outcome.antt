-- ===== src/Client/Startup/Outcome.antt =====
-- When the client starts.
use pisaller.Base.{
  ℕ, zero, suc, ◌≡◌, ◌↔◌, refl, ap, sym, arith, length, ltb, leb, false, true, Option, none, some,
  Result, ok, err, Bool-cases, inl, inr, ◌⊎◌, List, [], ◌∷◌, ◌==◌, if◌then◌else◌,
}
use pisaller.Base.Int.{ℤ, pos, negsuc, to_ℕ}
use pisaller.Base.Parse.{Parse, done, fails, panics, stuck, Ensures}
use pisaller.Config.{or_number, set_common_defaults}
use pisaller.Config.Loading.{ClientConfig, load_client_config}
use pisaller.Uuid.{Identity, UuidError, init_uuid}
use pisaller.Ech.Lookup.{EchState, init_ech}
use pisaller.Ech.Lookup.Loading.{init_ech_returns}
use pisaller.Socks5.{ProxyConfig}
use pisaller.Listen.{
  socks5_scheme, http_scheme, proxy_config, serve_on, run_listener, run_socks5, run_http,
}
use pisaller.Client.Startup.{
  Machine, Running, Start, running, start_pool, with_pool, unless_fatal, with_listeners, after_ech,
  after_uuid, after_config, start_client,
}

-- A number of channels that startPool can make, once the defaults are set.
abbrev pub Fits : ℕ → ℤ → Type 0
Fits longest z = (n : ℕ) × (z ≡ pos n) × (leb n longest ≡ true)

-- The same of the file's number, which stands for 2 where it is 0.
abbrev pub IsMakeable : ℕ → ℤ → Type 0
IsMakeable longest z = (n : ℕ) × (z ≡ pos n) × (leb (if n == 0 then 2 else n) longest ≡ true)

-- A listener that has no address, or can listen on the one of its configuration.
abbrev pub IsUp : List ℕ → (List ℕ → Result (Unit {0})) → List ℕ → Type 0
IsUp scheme listen addr = (addr ≡ []) ⊎ (listen (proxy_config scheme addr).host ≡ ok tt)

-- What the process needs of the machine behind InitECH.
abbrev pub IsGiven : Machine → ClientConfig → Type 0
IsGiven m conf =
    IsUp socks5_scheme m.listen_socks5 conf.local_socks5
    × IsUp http_scheme m.listen_http conf.local_http
    × Fits m.longest conf.common.concur

-- The process has started.
abbrev pub Runs : Start → Type 0
Runs s = (r : Running) × (s ≡ running r)

served :
    (r : Result (Unit {0})) (cfg : ProxyConfig) (s : Start)
    → Runs (unless_fatal (serve_on r cfg []) s) ↔ ((r ≡ ok tt) × Runs s)
served (ok done_) cfg s = ((λ h. (refl, h)), (λ (e, h). h))
served (err x) cfg s = ((λ (r, e). absurd (cc e)), (λ (e, h). absurd (cc e)))

suc_nonzero : (n : ℕ) → (suc n == 0) ≡ false
suc_nonzero n = grind arith

listening :
    (scheme : List ℕ) (listen : List ℕ → Result (Unit {0})) (addr : List ℕ) (s : Start)
    → Runs (unless_fatal (run_listener scheme listen addr []) s)
      ↔ (IsUp scheme listen addr × Runs s)
listening scheme listen [] s = ((λ h. (inl refl, h)), (λ (e, h). h))
listening scheme listen (x ∷ addr) s =
    let cfg = proxy_config scheme (x ∷ addr) in
    let (to, from) = served (listen cfg.host) cfg s in
    rw (suc_nonzero (length addr)) (
      (λ h. let (up, more) = to h in (inr up, more)),
      (λ (up, h). elim up [ inl e ↦ absurd (cc e) | inr up₁ ↦ from (up₁, h) ]),
    )

pool_made :
    (conf : ClientConfig) (st : Identity) (ech : EchState) (longest : ℕ) (z timeout : ℤ)
    → Runs (with_pool conf st ech (start_pool longest z timeout)) ↔ Fits longest z
pool_made conf st ech longest (negsuc n) timeout =
    ((λ (r, e). absurd (cc e)), (λ (m, e, f). absurd (cc e)))
pool_made conf st ech longest (pos n) timeout = elim (Bool-cases (leb n longest)) [
  | inl fits ↦ ((λ h. (n, refl, fits)), (λ h. rw fits (_, refl)))
  | inr above ↦ ((λ (r, e). absurd (cc (rw above at e))), (λ (m, e, f). absurd (cc (above, f, e))))
]

listeners_made :
    (m : Machine) (conf : ClientConfig) (st : Identity) (ech : EchState)
    → Runs (with_listeners m conf st ech) ↔ IsGiven m conf
unfolding run_socks5 run_http
listeners_made m conf st ech =
    let pool =
      with_pool conf st ech (start_pool m.longest conf.common.concur conf.common.dial_timeout) in
    let web = unless_fatal (run_http m.listen_http conf.local_http []) pool in
    let (socks_to, socks_from) = listening socks5_scheme m.listen_socks5 conf.local_socks5 web in
    let (http_to, http_from) = listening http_scheme m.listen_http conf.local_http pool in
    let (pool_to, pool_from) =
      pool_made conf st ech m.longest conf.common.concur conf.common.dial_timeout in
    (
      (λ h. let (a, h₁) = socks_to h in let (b, h₂) = http_to h₁ in (a, b, pool_to h₂)),
      (λ (a, b, n). socks_from (a, http_from (b, pool_from n))),
    )

ech-IsGiven :
    (m : Machine) (conf : ClientConfig) (st : Identity) (p : Parse (Unit {0}) × EchState)
    → Runs (after_ech m conf st p)
    → IsGiven m conf
ech-IsGiven m conf st (done x, ech) h = (listeners_made m conf st ech).0 h
ech-IsGiven m conf st (fails e, ech) h = (listeners_made m conf st ech).0 h
ech-IsGiven m conf st (panics, ech) (r, e) = absurd (cc e)
ech-IsGiven m conf st (stuck, ech) (r, e) = absurd (cc e)

IsGiven→ech :
    (m : Machine) (conf : ClientConfig) (st : Identity) (p : Parse (Unit {0}) × EchState)
    → Ensures (λ _. Unit {0}) p.0
    → IsGiven m conf
    → Runs (after_ech m conf st p)
IsGiven→ech m conf st (done x, ech) a h = (listeners_made m conf st ech).1 h
IsGiven→ech m conf st (fails e, ech) a h = (listeners_made m conf st ech).1 h
IsGiven→ech m conf st (panics, ech) a h = elim a [ ]
IsGiven→ech m conf st (stuck, ech) a h = elim a [ ]

uuid_needed :
    (m : Machine) (ech : EchState) (conf : ClientConfig) (u : Option UuidError × Identity)
    → Runs (after_uuid m ech conf u)
    → (u.0 ≡ none) × IsGiven m conf
uuid_needed m ech conf (some e, st) (r, h) = absurd (cc h)
uuid_needed m ech conf (none, st) h = (refl, ech-IsGiven m conf st _ h)

uuid_enough :
    (m : Machine) (ech : EchState) (conf : ClientConfig) (u : Option UuidError × Identity)
    → u.0 ≡ none
    → IsGiven m conf
    → Runs (after_uuid m ech conf u)
uuid_enough m ech conf (some e, st) h n = absurd (cc h)
uuid_enough m ech conf (none, st) h n =
    IsGiven→ech m conf st
      (init_ech m.net conf.common.dns_server conf.common.ech_domain conf.common.fallback ech)
      (init_ech_returns m.net _ _ _ ech) n

number-Fits : (longest : ℕ) (z : ℤ) → Fits longest (or_number z 2) ↔ IsMakeable longest z
number-Fits longest (pos zero) =
    let to : Fits longest (or_number (pos zero) 2) → IsMakeable longest (pos zero) =
      λ (n, e, f). (0, refl, rw (ap to_ℕ e) f) in
    let from : IsMakeable longest (pos zero) → Fits longest (or_number (pos zero) 2) =
      λ (n, e, f). (2, refl, rw (sym (ap to_ℕ e)) at f) in
    (to, from)
number-Fits longest (pos (suc n)) =
    let to : Fits longest (or_number (pos (suc n)) 2) → IsMakeable longest (pos (suc n)) =
      λ (m, e, f). (suc n, refl, rw (suc_nonzero n, ap to_ℕ e) f) in
    let from : IsMakeable longest (pos (suc n)) → Fits longest (or_number (pos (suc n)) 2) =
      λ (m, e, f). (suc n, refl, rw (sym (ap to_ℕ e), suc_nonzero n) at f) in
    (to, from)
number-Fits longest (negsuc n) = ((λ (m, e, f). absurd (cc e)), (λ (m, e, f). absurd (cc e)))

-- Whatever the network answers to InitECH, the client starts exactly if it has an argument, the
-- configuration's file is decoded, InitUUID takes its UUID, each of the two listeners has no
-- address or can listen on the one it is configured with, and `make` can make the pool's slices, of
-- the file's number of channels or of 2 where that is 0.
pub start_client_iff :
    (m : Machine) (args : ℕ) (file : Result ClientConfig) (conf : Option ClientConfig)
    (st : Identity) (ech : EchState)
    → Runs (start_client m args file conf st ech) ↔ (
        (ltb args 2 ≡ false)
        × ((c : ClientConfig) × (file ≡ ok c)
            × ((init_uuid c.uuid st).0 ≡ none)
            × IsUp socks5_scheme m.listen_socks5 c.local_socks5
            × IsUp http_scheme m.listen_http c.local_http
            × IsMakeable m.longest c.common.concur))
unfolding start_client load_client_config set_common_defaults
start_client_iff m args file conf st ech = (needed, enough)
  where
    loaded :
        (f : Result ClientConfig)
        → Runs (after_config m ech st (load_client_config f conf))
        → (c : ClientConfig) × (f ≡ ok c)
          × ((init_uuid c.uuid st).0 ≡ none)
          × IsUp socks5_scheme m.listen_socks5 c.local_socks5
          × IsUp http_scheme m.listen_http c.local_http
          × IsMakeable m.longest c.common.concur
    loaded (err e) (r, h) = absurd (cc h)
    loaded (ok c) h =
        let (u, n) =
          uuid_needed m ech (record c { common = set_common_defaults c.common })
            (init_uuid c.uuid st) h in
        let (a, b, fits) = n in (c, refl, u, a, b, (number-Fits m.longest c.common.concur).0 fits)

    needed :
        Runs (start_client m args file conf st ech)
        → (ltb args 2 ≡ false)
          × ((c : ClientConfig) × (file ≡ ok c)
              × ((init_uuid c.uuid st).0 ≡ none)
              × IsUp socks5_scheme m.listen_socks5 c.local_socks5
              × IsUp http_scheme m.listen_http c.local_http
              × IsMakeable m.longest c.common.concur)
    needed (r, h) = elim (Bool-cases (ltb args 2)) [
      | inl few ↦ absurd (cc (rw few at h))
      | inr enough_args ↦ (enough_args, loaded file (r, rw enough_args at h))
    ]

    enough :
        ((ltb args 2 ≡ false)
          × ((c : ClientConfig) × (file ≡ ok c)
              × ((init_uuid c.uuid st).0 ≡ none)
              × IsUp socks5_scheme m.listen_socks5 c.local_socks5
              × IsUp http_scheme m.listen_http c.local_http
              × IsMakeable m.longest c.common.concur))
        → Runs (start_client m args file conf st ech)
    enough (a, (c, e, u, x, y, fits)) =
        let n : IsGiven m (record c { common = set_common_defaults c.common }) =
          (x, y, (number-Fits m.longest c.common.concur).1 fits) in
        rw (a, e)
          (uuid_enough m ech (record c { common = set_common_defaults c.common })
            (init_uuid c.uuid st) u n)
