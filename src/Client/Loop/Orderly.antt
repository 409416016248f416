-- ===== src/Client/Loop/Orderly.antt =====
-- The current session and what is open, by the phase, and what a Close of a session does to them.
use pisaller.Base.{
  ℕ, ◌≡◌, refl, ap, sym, Bool, true, false, ◌||◌, none, some, List, [], ◌∷◌, ◌==◌, ==_refl, ==→eq,
  ltb, Bool-cases, inl, inr, arith,
}
use pisaller.Client.Loop.{Phase, head, dialled, muxed, waiting, Loop, has, without, close}

-- The connections that are open while connectLoop waits on a session: none or its own.
abbrev pub left : Bool → ℕ → List ℕ
left true n = []
left false n = n ∷ []

-- By the phase: at the head there is no current session and nothing is open; behind the dial one
-- connection is, whose session is not done; while it waits, the session is the current one, its two
-- layers are open until it is done, and until then its acceptStreams runs. The numbers are those of
-- dials that were made.
abbrev pub Tidy : Phase → Loop → Type 0
Tidy head s = (s.current ≡ none) × (s.open_ws ≡ []) × (s.open_smux ≡ [])
Tidy (dialled n) s =
    (s.current ≡ none)
    × (s.open_ws ≡ n ∷ [])
    × (s.open_smux ≡ [])
    × (has n s.done ≡ false)
    × (ltb n s.dials ≡ true)
Tidy (muxed n) s =
    (s.current ≡ none)
    × (s.open_ws ≡ n ∷ [])
    × (s.open_smux ≡ n ∷ [])
    × (has n s.done ≡ false)
    × (ltb n s.dials ≡ true)
Tidy (waiting n) s =
    (s.current ≡ some n)
    × (s.open_ws ≡ left (has n s.done) n)
    × (s.open_smux ≡ left (has n s.done) n)
    × ((has n s.done || has n s.accepters) ≡ true)
    × (ltb n s.dials ≡ true)

abbrev pub IsTidy : Loop → Type 0
IsTidy s = Tidy s.phase s

-- Whether it waits on this session.
abbrev pub mine : Phase → ℕ → Bool
mine head k = false
mine (dialled n) k = false
mine (muxed n) k = false
mine (waiting n) k = n == k

-- A session with goroutines is done, or it is waited on; and what is done was dialled.
pub record IsOrderly (s : Loop) : Type 0 where
  pub tidy : IsTidy s
  pub kept : (k : ℕ) → has k s.keepers ≡ true → (has k s.done || mine s.phase k) ≡ true
  pub accepted : (k : ℕ) → has k s.accepters ≡ true → (has k s.done || mine s.phase k) ≡ true
  pub old : (k : ℕ) → has k s.done ≡ true → ltb k s.dials ≡ true

mine→waiting : (p : Phase) (n : ℕ) → mine p n ≡ true → p ≡ waiting n
mine→waiting head n h = absurd (cc h)
mine→waiting (dialled m) n h = absurd (cc h)
mine→waiting (muxed m) n h = absurd (cc h)
mine→waiting (waiting m) n h = ap waiting (==→eq m n h)

pub in_phase : (s : Loop) {p : Phase} → s.phase ≡ p → IsTidy s → Tidy p s
in_phase s e h = rw (sym e) h

pub has-without : (k n : ℕ) (ks : List ℕ) → has k (without n ks) ≡ true → has k ks ≡ true
has-without k n [] h = h
has-without k n (j ∷ ks) h = ground (arith, has-without k n ks, h)

pub has-without_other : (k n : ℕ) (ks : List ℕ) → (n == k) ≡ false → has k (without n ks) ≡ has k ks
has-without_other k n [] h = refl
has-without_other k n (j ∷ ks) h = ground (arith, has-without_other k n ks h)

-- Goroutines of a session that is done may end.
pub ended :
    (p : Phase) (n : ℕ) (s : Loop) (keepers accs : List ℕ) (sig : Bool)
    → has n s.done ≡ true
    → ((k : ℕ) → (n == k) ≡ false → has k accs ≡ has k s.accepters)
    → Tidy p s
    → Tidy p (record s { keepers = keepers; accepters = accs; signalled = sig })
ended head n s keepers accs sig d same h = h
ended (dialled m) n s keepers accs sig d same h = h
ended (muxed m) n s keepers accs sig d same h = h
ended (waiting m) n s keepers accs sig d same (c, w, x, a, l) = (c, w, x, alive, l)
  where
    alive : (has m s.done || has m accs) ≡ true
    alive = elim (Bool-cases (n == m)) [
      | inl e ↦ rw (sym (==→eq n m e), d) refl
      | inr e ↦ rw (same m e) a
    ]

covered : (n k : ℕ) (b : Bool) → (b || (n == k)) ≡ true → (((n == k) || b) || (n == k)) ≡ true
covered n k b h = ground (arith, h)

pub emptied :
    (n : ℕ) (done layers : List ℕ)
    → has n done ≡ false
    → layers ≡ left (has n done) n
    → without n layers ≡ left (has n (n ∷ done)) n
emptied n done layers d e = rw (e, d, ==_refl n) refl

older :
    (n k : ℕ) (done : List ℕ) (dials : ℕ)
    → ltb n dials ≡ true
    → (has k done ≡ true → ltb k dials ≡ true)
    → has k (n ∷ done) ≡ true
    → ltb k dials ≡ true
older n k done dials l h e = elim (Bool-cases (n == k)) [
  | inl same ↦ rw (sym (==→eq n k same)) l
  | inr other ↦ h (rw other at e)
]

-- The session that it waits on is closed for the first time.
first_close :
    (n : ℕ) (s : Loop) (keepers accs : List ℕ) (sig : Bool)
    → has n s.done ≡ false
    → s.phase ≡ waiting n
    → ((k : ℕ) → has k keepers ≡ true → has k s.keepers ≡ true)
    → ((k : ℕ) → has k accs ≡ true → has k s.accepters ≡ true)
    → IsOrderly s
    → IsOrderly (record s {
      keepers = keepers;
      accepters = accs;
      signalled = sig;
      done = n ∷ s.done;
      open_smux = without n s.open_smux;
      open_ws = without n s.open_ws;
    })
first_close n s keepers accs sig d p ks rs h =
    let (c, w, x, a, l) = in_phase s p h.tidy in
    record {
      tidy = rw p (
        c,
        emptied n s.done s.open_ws d w,
        emptied n s.done s.open_smux d x,
        rw (==_refl n) refl,
        l,
      );
      kept = λ k e. rw p (covered n k (has k s.done) (rw p at h.kept k (ks k e)));
      accepted = λ k e. rw p (covered n k (has k s.done) (rw p at h.accepted k (rs k e)));
      old = λ k e. older n k s.done s.dials l (h.old k) e;
    }

-- A session is closed, by a goroutine of it that may end with that.
pub close-IsOrderly :
    (n : ℕ) (s : Loop) (keepers accs : List ℕ) (sig : Bool)
    → (has n s.done || mine s.phase n) ≡ true
    → ((k : ℕ) → has k keepers ≡ true → has k s.keepers ≡ true)
    → ((k : ℕ) → has k accs ≡ true → has k s.accepters ≡ true)
    → ((k : ℕ) → (n == k) ≡ false → has k accs ≡ has k s.accepters)
    → IsOrderly s
    → IsOrderly (close n (record s { keepers = keepers; accepters = accs; signalled = sig }))
close-IsOrderly n s keepers accs sig running ks rs same h = elim (Bool-cases (has n s.done)) [
  | inl d ↦ rw d (record {
    tidy = ended s.phase n s keepers accs sig d same h.tidy;
    kept = λ k e. h.kept k (ks k e);
    accepted = λ k e. h.accepted k (rs k e);
    old = h.old;
  })
  | inr d ↦
      rw d (first_close n s keepers accs sig d (mine→waiting s.phase n (rw d at running)) ks rs h)
]
