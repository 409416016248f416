-- ===== src/Socks5/Auth.antt =====
-- The greeting: who gets past it.
use pisaller.Base.{
  ℕ, ◌≡◌, ◌≢◌, refl, sym, ap, ◌∙◌, true, ◌&&◌, List, [], ◌∷◌, ◌++◌, length, ◌==◌, ==→eq, ne→==,
  if_split, arith, append_assoc, Result,
}
use pisaller.Base.Bytes.{byte_at}
use pisaller.Base.Text.{list_eq, list_eq→eq, contains, both}
use pisaller.Stream.{Conn, read_full, write}
use pisaller.Stream.Laws.{Succeeds, Succeeds-bind, Succeeds-map, read_full-ok, write-input}
use pisaller.Socks5.{ProxyConfig, write_quiet, user_pass_auth, choose_method, negotiate}

one_byte : (xs : List ℕ) → length xs ≡ 1 → xs ≡ byte_at xs 0 ∷ []
one_byte [] h = absurd (omega arith)
one_byte (x ∷ []) h = refl
one_byte (x ∷ y ∷ xs) h = absurd (omega arith)

two_bytes : (xs : List ℕ) → length xs ≡ 2 → xs ≡ byte_at xs 0 ∷ byte_at xs 1 ∷ []
two_bytes [] h = absurd (omega arith)
two_bytes (x ∷ []) h = absurd (omega arith)
two_bytes (x ∷ y ∷ []) h = refl
two_bytes (x ∷ y ∷ z ∷ xs) h = absurd (omega arith)

-- What a client has to send: the version, the user, and the password, each with its length.
abbrev pub credentials : ProxyConfig → List ℕ
credentials cfg =
    0x01 ∷ length cfg.username ∷ (cfg.username ++ (length cfg.password ∷ cfg.password))

assemble :
    (s b s₁ u s₂ l s₃ p s₄ user pass : List ℕ)
    → s ≡ b ++ s₁
    → s₁ ≡ u ++ s₂
    → s₂ ≡ l ++ s₃
    → s₃ ≡ p ++ s₄
    → b ≡ 0x01 ∷ length user ∷ []
    → l ≡ length pass ∷ []
    → u ≡ user
    → p ≡ pass
    → s ≡ (0x01 ∷ length user ∷ (user ++ (length pass ∷ pass))) ++ s₄
assemble s b s₁ u s₂ l s₃ p s₄ user pass e₁ e₂ e₃ e₄ eb el eu ep =
    rw (e₁, e₂, e₃, e₄, eb, el, eu, ep, append_assoc user (length pass ∷ pass) s₄)

user_pass_auth-Succeeds :
    (cfg : ProxyConfig) (c : Conn)
    → Succeeds (λ _ d. c.input ≡ credentials cfg ++ d.input) (user_pass_auth cfg c)
unfolding user_pass_auth write_quiet
user_pass_auth-Succeeds cfg c = Succeeds-bind Sent (read_full 2 c) _ λ b e.
    let (lb, ib) = read_full-ok 2 c b e in
    let c₁ = (read_full 2 c).1 in
    if_split (λ (m : Conn → Result (Unit {0}) × Conn). Succeeds Sent (m c₁)) (byte_at b 0 == 0x01)
      (λ version. Succeeds-bind Sent (read_full (byte_at b 1) c₁) _ λ u f.
        let (lu, iu) = read_full-ok (byte_at b 1) c₁ u f in
        let c₂ = (read_full (byte_at b 1) c₁).1 in
        Succeeds-bind Sent (read_full 1 c₂) _ λ l g.
          let (ll, il) = read_full-ok 1 c₂ l g in
          let c₃ = (read_full 1 c₂).1 in
          Succeeds-bind Sent (read_full (byte_at l 0) c₃) _ λ p h.
            let (lp, ip) = read_full-ok (byte_at l 0) c₃ p h in
            let c₄ = (read_full (byte_at l 0) c₃).1 in
            if_split (λ (m : Conn → Result (Unit {0}) × Conn). Succeeds Sent (m c₄))
              (list_eq u cfg.username && list_eq p cfg.password)
              (λ same.
                let (su, sp) = both _ _ same in
                let eu = list_eq→eq u cfg.username su in
                let ep = list_eq→eq p cfg.password sp in
                assemble c.input b c₁.input u c₂.input l c₃.input p c₄.input cfg.username
                  cfg.password ib iu il ip
                  (two_bytes b lb ∙ cc (==→eq (byte_at b 0) 0x01 version, lu, ap length eu))
                  (one_byte l ll ∙ cc (lp, ap length ep)) eu ep
                ∙ ap (λ x. credentials cfg ++ x) (sym (write-input (0x01 ∷ 0x00 ∷ []) c₄)))
              λ differs. tt)
      λ other. tt
  where
    Sent : Unit {0} → Conn → Type 0
    Sent _ d = c.input ≡ credentials cfg ++ d.input

-- A greeting that offers the method of user and password, and then these two.
abbrev pub Greets : ProxyConfig → List ℕ → List ℕ → Type 0
Greets cfg s rest =
    (methods : List ℕ) × (contains 0x02 methods ≡ true)
    × (s ≡ 0x05 ∷ length methods ∷ (methods ++ (credentials cfg ++ rest)))

greeting :
    (s b s₁ methods s₂ rest : List ℕ)
    → s ≡ b ++ s₁
    → s₁ ≡ methods ++ s₂
    → b ≡ 0x05 ∷ length methods ∷ []
    → s₂ ≡ rest
    → s ≡ 0x05 ∷ length methods ∷ (methods ++ rest)
greeting s b s₁ methods s₂ rest e₁ e₂ eb e₃ = rw (e₁, e₂, eb, e₃)

-- With a user in the configuration, nobody gets past the greeting but a client that has sent this
-- user and this password, by the method that it offered; the bytes behind them stay unread.
pub negotiate-Greets :
    (cfg : ProxyConfig) (c : Conn)
    → length cfg.username ≢ 0
    → Succeeds (λ _ d. Greets cfg c.input d.input) (negotiate cfg c)
unfolding negotiate choose_method write_quiet
negotiate-Greets cfg c named = Succeeds-bind Sent (read_full 2 c) _ λ b e.
    let (lb, ib) = read_full-ok 2 c b e in
    let c₁ = (read_full 2 c).1 in
    if_split (λ (m : Conn → Result (Unit {0}) × Conn). Succeeds Sent (m c₁)) (byte_at b 0 == 0x05)
      (λ version. Succeeds-bind Sent (read_full (byte_at b 1) c₁) _ λ methods f.
        let (lm, im) = read_full-ok (byte_at b 1) c₁ methods f in
        let c₂ = (read_full (byte_at b 1) c₁).1 in
        rw (ne→== (length cfg.username) 0 named) (
          if_split (λ (m : Conn → Result (Unit {0}) × Conn). Succeeds Sent (m c₂))
            (contains 0x02 methods)
            (λ offered.
              let c₃ = (write (0x05 ∷ 0x02 ∷ []) c₂).1 in
              Succeeds-map (λ _ d. c₃.input ≡ credentials cfg ++ d.input) Sent
                (user_pass_auth cfg c₃)
                (λ _ d sent. (
                  methods,
                  offered,
                  greeting c.input b c₁.input methods c₂.input _ ib im
                      (two_bytes b lb ∙ cc (==→eq (byte_at b 0) 0x05 version, lm))
                      (sym (write-input (0x05 ∷ 0x02 ∷ []) c₂) ∙ sent),
                ))
                (user_pass_auth-Succeeds cfg c₃))
            λ missing. tt))
      λ other. tt
  where
    Sent : Unit {0} → Conn → Type 0
    Sent _ d = Greets cfg c.input d.input
