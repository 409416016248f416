-- ===== src/Config/Defaults.antt =====
-- What a loaded configuration can be relied on for.
use pisaller.Base.{
  ℕ, zero, suc, ◌≡◌, ◌≢◌, ◌↔◌, ◌⊎◌, inl, inr, refl, sym, ap, ◌∙◌, true, false, List, [], ◌∷◌, arith,
  Bool-cases,
}
use pisaller.Base.Int.{ℤ, pos, negsuc, is_pos}
use pisaller.Base.Text.{list_eq, list_eq→eq, list_eq_refl}
use pisaller.Config.{
  CommonConfig, DnConfig, or_number, or_text, or_positive, set_common_defaults, set_dn_defaults,
  family_text, only, preferred, parse_strategy,
}

-- A number that was 0 is positive now, and any other is kept; the same of texts.
abbrev pub DefaultedNumber : ℤ → ℤ → Type 0
DefaultedNumber old new = ((old ≡ pos 0) × (is_pos new ≡ true)) ⊎ ((old ≢ pos 0) × (new ≡ old))

abbrev pub DefaultedText : List ℕ → List ℕ → Type 0
DefaultedText old new = ((old ≡ []) × (new ≢ [])) ⊎ ((old ≢ []) × (new ≡ old))

pub record Defaulted (old new : CommonConfig) : Type 0 where
  pub dial_timeout : DefaultedNumber old.dial_timeout new.dial_timeout
  pub keep_alive : DefaultedNumber old.keep_alive new.keep_alive
  pub up_pack : DefaultedNumber old.up_pack new.up_pack
  pub chunk_ms : DefaultedNumber old.chunk_ms new.chunk_ms
  pub concur : DefaultedNumber old.concur new.concur
  pub max_queue_bytes : DefaultedNumber old.max_queue_bytes new.max_queue_bytes
  pub read_buf : DefaultedNumber old.read_buf new.read_buf
  pub utls_fingerprint : DefaultedText old.utls_fingerprint new.utls_fingerprint
  pub dns_server : DefaultedText old.dns_server new.dns_server
  pub ech_domain : DefaultedText old.ech_domain new.ech_domain

or_number-Defaulted : (x : ℤ) (d : ℕ) → DefaultedNumber x (or_number x (suc d))
or_number-Defaulted (pos zero) d = inl (refl, refl)
or_number-Defaulted (pos (suc n)) d = inr ((λ e. absurd (cc e)), refl)
or_number-Defaulted (negsuc n) d = inr ((λ e. absurd (cc e)), refl)

or_text-Defaulted : (s : List ℕ) (b : ℕ) (d : List ℕ) → DefaultedText s (or_text s (b ∷ d))
or_text-Defaulted [] b d = inl (refl, λ e. absurd (cc e))
or_text-Defaulted (x ∷ s) b d = inr ((λ e. absurd (cc e)), refl)

or_number_twice : (x : ℤ) (d : ℕ) → or_number (or_number x (suc d)) (suc d) ≡ or_number x (suc d)
or_number_twice (pos zero) d = refl
or_number_twice (pos (suc n)) d = refl
or_number_twice (negsuc n) d = refl

or_text_twice :
    (s : List ℕ) (b : ℕ) (d : List ℕ) → or_text (or_text s (b ∷ d)) (b ∷ d) ≡ or_text s (b ∷ d)
or_text_twice [] b d = refl
or_text_twice (x ∷ s) b d = refl

-- The defaults replace every number that is 0 by a positive one and every empty text by one that is
-- not empty, keep every other number (a negative one too) and text, and setting them again changes
-- nothing.
pub set_common_defaults_once :
    (c : CommonConfig)
    → Defaulted c (set_common_defaults c)
      × (set_common_defaults (set_common_defaults c) ≡ set_common_defaults c)
unfolding set_common_defaults
set_common_defaults_once c = (
  record {
    dial_timeout = or_number-Defaulted c.dial_timeout _;
    keep_alive = or_number-Defaulted c.keep_alive _;
    up_pack = or_number-Defaulted c.up_pack _;
    chunk_ms = or_number-Defaulted c.chunk_ms _;
    concur = or_number-Defaulted c.concur _;
    max_queue_bytes = or_number-Defaulted c.max_queue_bytes _;
    read_buf = or_number-Defaulted c.read_buf _;
    utls_fingerprint = or_text-Defaulted c.utls_fingerprint _ _;
    dns_server = or_text-Defaulted c.dns_server _ _;
    ech_domain = or_text-Defaulted c.ech_domain _ _;
  },
  rw (
    or_number_twice c.dial_timeout _,
    or_number_twice c.keep_alive _,
    or_number_twice c.up_pack _,
    or_number_twice c.chunk_ms _,
    or_number_twice c.concur _,
    or_number_twice c.max_queue_bytes _,
    or_number_twice c.read_buf _,
    or_text_twice c.utls_fingerprint _ _,
    or_text_twice c.dns_server _ _,
    or_text_twice c.ech_domain _ _,
  ),
)

or_positive-pos : (x : ℤ) (d : ℕ) → is_pos (or_positive x (suc d)) ≡ true
or_positive-pos (pos zero) d = refl
or_positive-pos (pos (suc n)) d = refl
or_positive-pos (negsuc n) d = refl

abbrev pub IsPositive : DnConfig → Type 0
IsPositive c = (is_pos c.dn_pack ≡ true) × (is_pos c.dn_tail ≡ true) × (is_pos c.dn_qr ≡ true)

-- Whatever numbers the server's file has for the way down, they are positive behind the defaults.
pub set_dn_defaults-IsPositive : (c : DnConfig) → IsPositive (set_dn_defaults c)
unfolding set_dn_defaults
set_dn_defaults-IsPositive c =
    (or_positive-pos c.dn_pack _, or_positive-pos c.dn_tail _, or_positive-pos c.dn_qr _)

text_cases : (s t : List ℕ) → (s ≡ t) ⊎ ((list_eq s t ≡ false) × (s ≢ t))
text_cases s t = elim (Bool-cases (list_eq s t)) [
  | inl e ↦ inl (list_eq→eq s t e)
  | inr e ↦ inr (e, λ same. absurd (cc (e, ap (list_eq s) same, list_eq_refl s)))
]

yes {ℓ κ} : {A : Type ℓ} {B : Type κ} → A → B → (A ↔ B)
yes a b = ((λ _. b), λ _. a)

no {ℓ κ} : {A : Type ℓ} {B : Type κ} → (A → ⊥) → (B → ⊥) → (A ↔ B)
no f g = ((λ a. absurd (f a)), λ b. absurd (g b))

different : (s t : List ℕ) → list_eq s t ≡ false → s ≢ t
different s t e same = absurd (cc (e, ap (list_eq s) same, list_eq_refl s))

abbrev only_4 : List ℕ
only_4 = family_text b'4' only

abbrev only_6 : List ℕ
only_6 = family_text b'6' only

abbrev prefer_6 : List ℕ
prefer_6 = family_text b'6' preferred

parse_strategy-cases :
    (s : List ℕ)
    → ((s ≡ only_4) × (parse_strategy s ≡ 1))
      ⊎ ((s ≡ only_6) × (parse_strategy s ≡ 2))
      ⊎ ((s ≡ prefer_6) × (parse_strategy s ≡ 4))
      ⊎ ((s ≢ only_4) × (s ≢ only_6) × (s ≢ prefer_6) × (parse_strategy s ≡ 3))
unfolding parse_strategy
parse_strategy-cases s = elim (text_cases s only_4) [
  | inl a ↦ inl (a, rw a refl)
  | inr (a, x) ↦ elim (text_cases s only_6) [
    | inl b ↦ inr (inl (b, rw b refl))
    | inr (b, y) ↦ elim (text_cases s (family_text b'4' preferred)) [
      | inl c ↦ inr (inr (inr (x, y, (λ z. different _ _ refl (sym c ∙ z)), rw c refl)))
      | inr (c, z) ↦ elim (text_cases s prefer_6) [
        | inl d ↦ inr (inr (inl (d, rw d refl)))
        | inr (d, w) ↦ inr (inr (inr (x, y, w, simp (a, b, c, d))))
      ]
    ]
  ]
]

-- The names of the strategies: "ipv4_only", "ipv6_only" and "ipv6_prefer" alone give these
-- strategies, and every other text gives the one that prefers IPv4.
pub parse_strategy_iff :
    (s : List ℕ)
    → (parse_strategy s ≡ 0x01 ↔ s ≡ only_4)
      × (parse_strategy s ≡ 0x02 ↔ s ≡ only_6)
      × (parse_strategy s ≡ 0x04 ↔ s ≡ prefer_6)
      × (parse_strategy s ≡ 0x03 ↔ (s ≢ only_4) × (s ≢ only_6) × (s ≢ prefer_6))
parse_strategy_iff s = elim (parse_strategy-cases s) [
  | inl (e, p) ↦ (
    yes p e,
    no (λ q. omega arith) (λ q. different _ _ refl (sym e ∙ q)),
    no (λ q. omega arith) (λ q. different _ _ refl (sym e ∙ q)),
    no (λ q. omega arith) (λ (x, y, w). absurd (x e)),
  )
  | inr (inl (e, p)) ↦ (
    no (λ q. omega arith) (λ q. different _ _ refl (sym e ∙ q)),
    yes p e,
    no (λ q. omega arith) (λ q. different _ _ refl (sym e ∙ q)),
    no (λ q. omega arith) (λ (x, y, w). absurd (y e)),
  )
  | inr (inr (inl (e, p))) ↦ (
    no (λ q. omega arith) (λ q. different _ _ refl (sym e ∙ q)),
    no (λ q. omega arith) (λ q. different _ _ refl (sym e ∙ q)),
    yes p e,
    no (λ q. omega arith) (λ (x, y, w). absurd (w e)),
  )
  | inr (inr (inr (x, y, w, p))) ↦
      (no (λ q. omega arith) x, no (λ q. omega arith) y, no (λ q. omega arith) w, yes p (x, y, w))
]
