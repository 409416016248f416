-- ===== src/Pool/Serve/Entry.antt =====
-- What the entries of a channel say of it.
use pisaller.Base.{ℕ, ◌≡◌, refl, ap, sym, Bool, true, false, none, some, [], ◌∷◌, ◌++◌}
use pisaller.Pool.Serve.{
  Phase, dialling, probing, serving, dying, ending, Slot, Step, dial_fails, smux_fails, installs,
  first_probe, first_probe_fails, probes, probe_fails, prober_ends, breaks, dies, is_done,
  dead_is_done, clears, Reach, here, next,
}

-- The entries, the prober and the connections, by the phase: while it dials, the slot is empty with
-- the time 0, nobody probes, and every connection is closed; while it ends, every connection is
-- closed and nobody probes; otherwise the entry is the one connection that is not closed.
abbrev pub Fits : Phase → Slot → Type 0
Fits dialling s =
    (s.smux_conn ≡ none) × (s.channel_rtt ≡ 0) × (s.prober ≡ false) × (s.dialled ≡ s.shut)
Fits (probing w) s = (s.smux_conn ≡ some w) × (s.prober ≡ false) × (s.dialled ≡ s.shut ++ (w ∷ []))
Fits (serving w) s = (s.smux_conn ≡ some w) × (s.dialled ≡ s.shut ++ (w ∷ []))
Fits (dying w) s = (s.smux_conn ≡ some w) × (s.dialled ≡ s.shut ++ (w ∷ []))
Fits (ending w) s = (s.smux_conn ≡ some w) × (s.prober ≡ false) × (s.dialled ≡ s.shut)

abbrev pub IsFit : Slot → Type 0
IsFit s = Fits s.phase s

in_phase : (s : Slot) {p : Phase} → s.phase ≡ p → IsFit s → Fits p s
in_phase s e h = rw (sym e) h

-- The prober's stores, while it runs.
stored :
    (p : Phase) (s : Slot) (rtt : ℕ) (b : Bool)
    → s.prober ≡ true
    → Fits p s
    → Fits p (record s { channel_rtt = rtt; prober = b })
stored dialling s rtt b r (e, z, q, d) = absurd (cc (r, q))
stored (probing w) s rtt b r (e, q, d) = absurd (cc (r, q))
stored (serving w) s rtt b r (e, d) = (e, d)
stored (dying w) s rtt b r (e, d) = (e, d)
stored (ending w) s rtt b r (e, q, d) = absurd (cc (r, q))

broken : (p : Phase) (s : Slot) → Fits p s → Fits p (record s { sess_closed = true })
broken dialling s h = h
broken (probing w) s h = h
broken (serving w) s h = h
broken (dying w) s h = h
broken (ending w) s h = h

emptied :
    (p : Phase) (s : Slot) (w : ℕ)
    → p ≡ dialling
    → Fits p s
    → Fits p (record s { dialled = s.dialled ++ (w ∷ []); shut = s.shut ++ (w ∷ []) })
emptied dialling s w e (c, z, q, d) = (c, z, q, ap (λ x. x ++ (w ∷ [])) d)
emptied (probing v) s w e h = absurd (cc e)
emptied (serving v) s w e h = absurd (cc e)
emptied (dying v) s w e h = absurd (cc e)
emptied (ending v) s w e h = absurd (cc e)

Step-IsFit : (timeout : ℕ) {s t : Slot} → IsFit s → Step timeout s t → IsFit t
Step-IsFit timeout {s} h (dial_fails e) = h
Step-IsFit timeout {s} h (smux_fails w e) = emptied s.phase s w e h
Step-IsFit timeout {s} h (installs w e) =
    let (c, z, q, d) = in_phase s e h in (refl, q, ap (λ x. x ++ (w ∷ [])) d)
Step-IsFit timeout {s} h (first_probe w rtt e) = let (c, q, d) = in_phase s e h in (c, d)
Step-IsFit timeout {s} h (first_probe_fails w e) = let (c, q, d) = in_phase s e h in (c, d)
Step-IsFit timeout {s} h (probes rtt r) = stored s.phase s rtt s.prober r h
Step-IsFit timeout {s} h (probe_fails r o) = stored s.phase s timeout s.prober r h
Step-IsFit timeout {s} h (prober_ends r o) = stored s.phase s timeout false r h
Step-IsFit timeout {s} h breaks = broken s.phase s h
Step-IsFit timeout {s} h (dies w e) = in_phase s e h
Step-IsFit timeout {s} h (is_done w e q) = let (c, d) = in_phase s e h in (c, q, d)
Step-IsFit timeout {s} h (dead_is_done w e q) = let (c, d) = in_phase s e h in (c, q, d)
Step-IsFit timeout {s} h (clears w e) = let (c, q, d) = in_phase s e h in (refl, refl, q, d)

-- Whatever happens to a channel, in any order: while it dials its slot is empty with the time 0, no
-- prober can store into it, and every connection that was dialled is closed; behind that the slot
-- holds the one connection that is dialled and not closed, until that is closed.
pub Reach-IsFit : (timeout : ℕ) {s : Slot} → Reach timeout s → IsFit s
Reach-IsFit timeout here = (refl, refl, refl, refl)
Reach-IsFit timeout (next r step) = Step-IsFit timeout (Reach-IsFit timeout r) step
