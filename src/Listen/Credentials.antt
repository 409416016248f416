-- ===== src/Listen/Credentials.antt =====
-- The credentials of a listener's address.
use pisaller.Base.{
  ℕ, ◌≡◌, refl, true, false, ◌==◌, Bool-cases, inl, inr, List, [], ◌∷◌, ◌++◌, length, ok,
}
use pisaller.Base.Text.{contains, split_first-append, has_prefix-append, drop-append}
use pisaller.Stream.{Conn}
use pisaller.Socks.{parse_auth_and_addr}
use pisaller.Socks5.{negotiate}
use pisaller.Socks5.Request.{negotiate_open}
use pisaller.Listen.{trim_prefix, proxy_config}

contains-append_none :
    (sep : ℕ) (s t : List ℕ)
    → contains sep s ≡ false
    → contains sep t ≡ false
    → contains sep (s ++ t) ≡ false
unfolding contains
contains-append_none sep [] t h k = k
contains-append_none sep (x ∷ s) t h k = elim (Bool-cases (x == sep)) [
  | inl e ↦ absurd (cc (h, e))
  | inr e ↦ rw e (contains-append_none sep s t (rw e at h) k)
]

trimmed : (scheme s : List ℕ) → trim_prefix scheme (scheme ++ s) ≡ s
unfolding trim_prefix
trimmed scheme s = rw (has_prefix-append scheme s) (drop-append scheme s)

-- An address behind credentials, split at the first `@`.
split_auth :
    (auth h : List ℕ)
    → contains b'@' auth ≡ false
    → contains b':' auth ≡ false
    → parse_auth_and_addr (auth ++ (b'@' ∷ h)) ≡ (h, [], [])
unfolding parse_auth_and_addr
split_auth auth h e c =
    let (found, parts) = split_first-append b'@' auth h e in rw (found, parts, c) refl

split_user :
    (u p h : List ℕ)
    → contains b'@' (u ++ (b':' ∷ p)) ≡ false
    → contains b':' u ≡ false
    → parse_auth_and_addr ((u ++ (b':' ∷ p)) ++ (b'@' ∷ h)) ≡ (h, u, p)
unfolding parse_auth_and_addr
split_user u p h e c =
    let (found, parts) = split_first-append b'@' (u ++ (b':' ∷ p)) h e in
    let (colon, up) = split_first-append b':' u p c in rw (found, parts, colon, up) refl

contains-colon : (p : List ℕ) → contains b'@' p ≡ false → contains b'@' (b':' ∷ p) ≡ false
unfolding contains
contains-colon p f = f

-- A listener's address with a scheme, a user without colon and `@`, a password without `@` and any
-- host configures this user, this password and this host.
pub proxy_config_round_trip :
    (scheme u p h : List ℕ)
    → contains b':' u ≡ false
    → contains b'@' u ≡ false
    → contains b'@' p ≡ false
    → proxy_config scheme (scheme ++ ((u ++ (b':' ∷ p)) ++ (b'@' ∷ h)))
      ≡ record { username = u; password = p; host = h }
unfolding proxy_config
proxy_config_round_trip scheme u p h c e f =
    let plain = contains-append_none b'@' u (b':' ∷ p) e (contains-colon p f) in
    rw (trimmed scheme ((u ++ (b':' ∷ p)) ++ (b'@' ∷ h)), split_user u p h plain c) refl

-- Credentials without a colon configure no user.
no_colon :
    (scheme auth h : List ℕ)
    → contains b'@' auth ≡ false
    → contains b':' auth ≡ false
    → proxy_config scheme (scheme ++ (auth ++ (b'@' ∷ h)))
      ≡ record { username = []; password = []; host = h }
unfolding proxy_config
no_colon scheme auth h e c = rw (trimmed scheme (auth ++ (b'@' ∷ h)), split_auth auth h e c) refl

-- The bug of the user without a password: an address whose credentials have no colon configures no
-- user, so a client that offers no authentication gets past the greeting.
pub no_colon_opens :
    (scheme auth h methods rest : List ℕ) (c : Conn)
    → contains b':' auth ≡ false
    → contains b'@' auth ≡ false
    → contains 0x00 methods ≡ true
    → c.faults ≡ []
    → c.input ≡ 0x05 ∷ length methods ∷ (methods ++ rest)
    → negotiate (proxy_config scheme (scheme ++ (auth ++ (b'@' ∷ h)))) c
      ≡ (ok tt, record c { input = rest; output = c.output ++ (0x05 ∷ 0x00 ∷ []) })
no_colon_opens scheme auth h methods rest c colon at offered f i =
    rw (no_colon scheme auth h at colon) (negotiate_open _ methods rest c refl offered f i)
