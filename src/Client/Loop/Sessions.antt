-- ===== src/Client/Loop/Sessions.antt =====
-- The current session, and what is open.
use pisaller.Base.{
  ℕ, ◌≡◌, refl, ap, sym, Bool, true, false, ◌||◌, none, some, List, ◌∷◌, ◌==◌, ==_refl, ==→eq, ltb,
  Bool-cases, inl, inr, arith, Option,
}
use pisaller.Base.Int.{ℤ}
use pisaller.Client.Loop.{
  Phase, head, dialled, muxed, waiting, Loop, has, without, close_current, Step, has_session,
  no_pool, dial_fails, dials_ws, mux_fails, muxes, handshake_fails, shakes_hands, keeper_closes,
  keeper_ends, accepter_closes, resumes, signal, here, next, Reach,
}
use pisaller.Client.Loop.Orderly.{
  Tidy, IsTidy, mine, IsOrderly, in_phase, has-without, has-without_other, ended, close-IsOrderly,
}

-- The dial takes the next number, of which nothing is done.
fresh :
    (done : List ℕ) (n : ℕ) → ((k : ℕ) → has k done ≡ true → ltb k n ≡ true) → has n done ≡ false
fresh done n old = elim (Bool-cases (has n done)) [
  | inl e ↦ absurd (ground (arith, old n e))
  | inr e ↦ e
]

or_true : (b : Bool) → (b || true) ≡ true
or_true true = refl
or_true false = refl

joined :
    (n k : ℕ) (b running : Bool)
    → (running ≡ true → (b || false) ≡ true)
    → ((n == k) || running) ≡ true
    → (b || (n == k)) ≡ true
joined n k b running h e = elim (Bool-cases (n == k)) [
  | inl same ↦ rw same (or_true b)
  | inr other ↦ rw other (h (rw other at e))
]

parted :
    (n k : ℕ) (done : List ℕ)
    → has n done ≡ true
    → (has k done || (n == k)) ≡ true
    → (has k done || false) ≡ true
parted n k done d e = elim (Bool-cases (n == k)) [
  | inl same ↦ rw (sym (==→eq n k same), d) refl
  | inr other ↦ rw other at e
]

current_mine : (p : Phase) (s : Loop) (n : ℕ) → Tidy p s → s.current ≡ some n → mine p n ≡ true
current_mine head s n (c, w, x) e = absurd (cc (c, e))
current_mine (dialled m) s n (c, w, x, d, l) e = absurd (cc (c, e))
current_mine (muxed m) s n (c, w, x, d, l) e = absurd (cc (c, e))
current_mine (waiting m) s n (c, w, x, a, l) e = cc (c, e, ==_refl m)

unsignalled : (p : Phase) (s : Loop) → Tidy p s → Tidy p (record s { signalled = true })
unsignalled head s h = h
unsignalled (dialled m) s h = h
unsignalled (muxed m) s h = h
unsignalled (waiting m) s h = h

signalled-IsOrderly :
    (o : Option ℕ) (s : Loop)
    → s.current ≡ o
    → IsOrderly s
    → IsOrderly (close_current o (record s { signalled = true }))
signalled-IsOrderly none s e h = record {
  tidy = unsignalled s.phase s h.tidy;
  kept = h.kept;
  accepted = h.accepted;
  old = h.old;
}
signalled-IsOrderly (some n) s e h =
    close-IsOrderly n s s.keepers s.accepters true
      (rw (current_mine s.phase s n h.tidy e) (or_true (has n s.done))) (λ k f. f) (λ k f. f)
      (λ k f. refl) h

Step-IsOrderly :
    (uuid : List ℕ) (timeout : ℤ) {s t : Loop} → IsOrderly s → Step uuid timeout s t → IsOrderly t
Step-IsOrderly uuid timeout {s} h (has_session n p c) = h
Step-IsOrderly uuid timeout {s} h (no_pool p c) = h
Step-IsOrderly uuid timeout {s} h (dial_fails p c) = h
Step-IsOrderly uuid timeout {s} h (dials_ws p c) =
    let (c', w, x) = in_phase s p h.tidy in
    record {
      tidy = (c, ap (λ ws. s.dials ∷ ws) w, x, fresh s.done s.dials h.old, ground arith);
      kept = λ k e. rw p at h.kept k e;
      accepted = λ k e. rw p at h.accepted k e;
      old = λ k e. grind (arith, h.old k e);
    }
Step-IsOrderly uuid timeout {s} h (mux_fails n p) =
    let (c, w, x, d, l) = in_phase s p h.tidy in
    record {
      tidy = (c, rw (w, ==_refl n) refl, x);
      kept = λ k e. rw p at h.kept k e;
      accepted = λ k e. rw p at h.accepted k e;
      old = h.old;
    }
Step-IsOrderly uuid timeout {s} h (muxes n p) =
    let (c, w, x, d, l) = in_phase s p h.tidy in
    record {
      tidy = (c, w, ap (λ xs. n ∷ xs) x, d, l);
      kept = λ k e. rw p at h.kept k e;
      accepted = λ k e. rw p at h.accepted k e;
      old = h.old;
    }
Step-IsOrderly uuid timeout {s} h (handshake_fails n now later stream p e) =
    let (c, w, x, d, l) = in_phase s p h.tidy in
    record {
      tidy = (c, rw (w, ==_refl n) refl, rw (x, ==_refl n) refl);
      kept = λ k e. rw p at h.kept k e;
      accepted = λ k e. rw p at h.accepted k e;
      old = h.old;
    }
Step-IsOrderly uuid timeout {s} h (shakes_hands n now later stream p e) =
    let (c, w, x, d, l) = in_phase s p h.tidy in
    record {
      tidy = (refl, rw d w, rw d x, rw (d, ==_refl n) refl, l);
      kept = λ k f. joined n k (has k s.done) (has k s.keepers) (λ g. rw p at h.kept k g) f;
      accepted =
          λ k f. joined n k (has k s.done) (has k s.accepters) (λ g. rw p at h.accepted k g) f;
      old = h.old;
    }
Step-IsOrderly uuid timeout {s} h (keeper_closes n r) =
    close-IsOrderly n s (without n s.keepers) s.accepters s.signalled (h.kept n r)
      (λ k e. has-without k n s.keepers e) (λ k e. e) (λ k e. refl) h
Step-IsOrderly uuid timeout {s} h (keeper_ends n r d) = record {
  tidy = ended s.phase n s (without n s.keepers) s.accepters s.signalled d (λ k e. refl) h.tidy;
  kept = λ k e. h.kept k (has-without k n s.keepers e);
  accepted = h.accepted;
  old = h.old;
}
Step-IsOrderly uuid timeout {s} h (accepter_closes n r) =
    close-IsOrderly n s s.keepers (without n s.accepters) s.signalled (h.accepted n r) (λ k e. e)
      (λ k e. has-without k n s.accepters e) (λ k e. has-without_other k n s.accepters e) h
Step-IsOrderly uuid timeout {s} h (resumes n p d) =
    let (c, w, x, a, l) = in_phase s p h.tidy in
    record {
      tidy = (refl, rw d at w, rw d at x);
      kept = λ k e. parted n k s.done d (rw p at h.kept k e);
      accepted = λ k e. parted n k s.done d (rw p at h.accepted k e);
      old = h.old;
    }
Step-IsOrderly uuid timeout {s} h (signal z) = signalled-IsOrderly s.current s refl h

run-IsOrderly : (uuid : List ℕ) (timeout : ℤ) {s : Loop} → Reach uuid timeout s → IsOrderly s
run-IsOrderly uuid timeout here = record {
  tidy = (refl, refl, refl);
  kept = λ k e. absurd (cc e);
  accepted = λ k e. absurd (cc e);
  old = λ k e. absurd (cc e);
}
run-IsOrderly uuid timeout (next r step) =
    Step-IsOrderly uuid timeout (run-IsOrderly uuid timeout r) step

pub Reach-IsTidy : (uuid : List ℕ) (timeout : ℤ) {s : Loop} → Reach uuid timeout s → IsTidy s
Reach-IsTidy uuid timeout r = (run-IsOrderly uuid timeout r).tidy
