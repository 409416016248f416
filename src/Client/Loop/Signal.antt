-- ===== src/Client/Loop/Signal.antt =====
-- What follows on a signal: main waits for connectLoop, which goes on.
use pisaller.Base.{ℕ, ◌≡◌, refl, ap, ◌∙◌, true, false, some, List, [], ◌∷◌, ==_refl, Option}
use mathlib.Core.Path.{subst}
use pisaller.Base.Int.{ℤ}
use pisaller.Stream.{Conn}
use pisaller.Client.Loop.{
  Loop, waiting, has, without, close, close_current, handshake, dials_ws, muxes, shakes_hands,
  resumes, signal, Step, Run, here, next, Reach,
}
use pisaller.Client.Loop.Orderly.{in_phase, left, emptied}
use pisaller.Client.Loop.Sessions.{Reach-IsTidy}

-- When main gets its signal while connectLoop waits on a session that is not done, by that one step
-- the session is done and both its layers are closed; and there is a run behind it in which
-- connectLoop dials again, passes the handshake and waits on the next session, the current one,
-- with both its layers open and the signal used up.
pub signal_reconnects :
    (uuid : List ℕ) (timeout : ℤ) {s : Loop} (n now later : ℕ) (stream : Option Conn)
    → Reach uuid timeout s
    → s.phase ≡ waiting n
    → has n s.done ≡ false
    → s.signalled ≡ false
    → handshake now later uuid timeout stream ≡ true
    → (u t : Loop) × Step uuid timeout s u
      × (u.signalled ≡ true)
      × (has n u.done ≡ true)
      × (u.open_ws ≡ [])
      × (u.open_smux ≡ [])
      × Run uuid timeout u t
      × (t.phase ≡ waiting s.dials)
      × (t.current ≡ some s.dials)
      × (t.open_ws ≡ s.dials ∷ [])
      × (t.open_smux ≡ s.dials ∷ [])
      × (t.signalled ≡ true)
signal_reconnects uuid timeout {s} n now later stream r p o z e =
    let (c, w, x, a, l) = in_phase s p (Reach-IsTidy uuid timeout r) in
    let shut : Loop = record s {
      signalled = true;
      done = n ∷ s.done;
      open_smux = without n s.open_smux;
      open_ws = without n s.open_ws;
    } in
    let close_now : close n (record s { signalled = true }) ≡ shut = rw o refl in
    let told : Step uuid timeout s shut =
      subst (λ v. Step uuid timeout s v) close_now
        (subst (λ v. Step uuid timeout s (close_current v (record s { signalled = true }))) c
          (signal z)) in
    let over : has n (n ∷ s.done) ≡ true = rw (==_refl n) refl in
    let no_ws = emptied n s.done s.open_ws o w ∙ ap (λ b. left b n) over in
    let no_smux = emptied n s.done s.open_smux o x ∙ ap (λ b. left b n) over in
    (
      shut,
      _,
      told,
      refl,
      over,
      no_ws,
      no_smux,
      next (next (next (next here (resumes n p over)) (dials_ws refl refl)) (muxes s.dials refl))
          (shakes_hands s.dials now later stream refl e),
      refl,
      refl,
      ap (λ ks. s.dials ∷ ks) no_ws,
      ap (λ ks. s.dials ∷ ks) no_smux,
      refl,
    )
