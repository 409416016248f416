-- ===== src/Pool/Choice.antt =====
-- The choice of a channel.
use pisaller.Base.{
  All-map, ℕ, zero, suc, ◌+◌, ◌%◌, ◌^◌, ◌≤◌, ◌<◌, ◌≡◌, refl, ap, ◌∙◌, Option, none, some, List, [],
  ◌∷◌, length, All, leb, ltb, if_split, arith, lt→ltb, leb→le, leb→lt, ltb→le, ltb→lt, ne→==,
  Bool-cases, inl, inr,
}
use pisaller.Pool.{
  Channel, EchPool, Candidate, live_rtt, with_candidate, candidates, min_rtt, tie_window, within,
  near, pick, Picked, picked, candidate_at, choose, select_channel,
}

-- The time of the channel at an index, and none if no channel in use stands there.
abbrev pub live_at : ℕ → List Channel → ℕ → Option ℕ
live_at timeout [] i = none
live_at timeout (ch ∷ chs) zero = live_rtt timeout ch
live_at timeout (ch ∷ chs) (suc i) = live_at timeout chs i

-- A candidate of a list that starts at `i`.
abbrev IsLive : ℕ → ℕ → List Channel → Candidate → Type 0
IsLive timeout i chs c = (k : ℕ) × (c.idx ≡ i + k) × (live_at timeout chs k ≡ some c.rtt)

candidates-IsLive :
    (timeout i : ℕ) (chs : List Channel) → All (IsLive timeout i chs) (candidates timeout i chs)
unfolding candidates
candidates-IsLive timeout i [] = tt
candidates-IsLive timeout i (ch ∷ chs) = add (live_rtt timeout ch) refl (
    All-map (IsLive timeout (suc i) chs) (IsLive timeout i (ch ∷ chs))
      (λ c (k, e, l). (suc k, omega (arith, e), l)) _ (candidates-IsLive timeout (suc i) chs))
  where
    add :
        (o : Option ℕ)
        → live_rtt timeout ch ≡ o
        → All (IsLive timeout i (ch ∷ chs)) (candidates timeout (suc i) chs)
        → All (IsLive timeout i (ch ∷ chs)) (with_candidate i o (candidates timeout (suc i) chs))
    add none e later = later
    add (some r) e later = ((0, omega arith, e), later)

-- A bound below every candidate is one below every channel in use.
candidates-lower :
    (timeout i m k r : ℕ) (chs : List Channel)
    → live_at timeout chs k ≡ some r
    → All (λ c. m ≤ c.rtt) (candidates timeout i chs)
    → m ≤ r
unfolding candidates
candidates-lower timeout i m k r [] e h = absurd (cc e)
candidates-lower timeout i m zero r (ch ∷ chs) e h = (rw e at h).0
candidates-lower timeout i m (suc k) r (ch ∷ chs) e h =
    candidates-lower timeout (suc i) m k r chs e (drop_first (live_rtt timeout ch) h)
  where
    drop_first :
        (o : Option ℕ)
        → All (λ c. m ≤ c.rtt) (with_candidate i o (candidates timeout (suc i) chs))
        → All (λ c. m ≤ c.rtt) (candidates timeout (suc i) chs)
    drop_first none g = g
    drop_first (some s) (g, gs) = gs

-- Not over `m` and not over any candidate.
record IsLower (k m : ℕ) (cs : List Candidate) : Type 0 where
  pub start : k ≤ m
  pub others : All (λ c. k ≤ c.rtt) cs

min_rtt-IsLower : (m : ℕ) (cs : List Candidate) → IsLower (min_rtt m cs) m cs
unfolding min_rtt
min_rtt-IsLower m [] = record { start = omega arith; others = tt }
min_rtt-IsLower m (c ∷ cs) =
    if_split (λ x. IsLower (min_rtt x cs) m (c ∷ cs)) (ltb c.rtt m)
      (λ less.
        let l = min_rtt-IsLower c.rtt cs in
        record { start = omega (arith, l.start, ltb→lt _ _ less); others = (l.start, l.others) })
      λ more.
        let l = min_rtt-IsLower m cs in
        record { start = l.start; others = (omega (arith, l.start, ltb→le _ _ more), l.others) }

within-All :
    (P : Candidate → Type 0) (bound : ℕ) (cs : List Candidate)
    → All P cs
    → All (λ c. P c × (c.rtt ≤ bound)) (within bound cs)
unfolding within
within-All P bound [] h = tt
within-All P bound (c ∷ cs) (h, hs) =
    if_split (All (λ d. P d × (d.rtt ≤ bound))) (leb c.rtt bound)
      (λ le. ((h, leb→le _ _ le), within-All P bound cs hs)) λ gt. within-All P bound cs hs

within-pos :
    (bound m : ℕ) (cs : List Candidate)
    → min_rtt m cs ≤ bound
    → bound < m
    → 0 < length (within bound cs)
unfolding within min_rtt
within-pos bound m [] h k = absurd (omega arith)
within-pos bound m (c ∷ cs) h k = elim (Bool-cases (leb c.rtt bound)) [
  | inl le ↦ rw le (omega arith)
  | inr gt ↦
      let above = leb→lt _ _ gt in
      rw gt (elim (Bool-cases (ltb c.rtt m)) [
        | inl less ↦ within-pos bound c.rtt cs (rw less at h) above
        | inr more ↦ within-pos bound m cs (rw more at h) k
      ])
]

within-first :
    (bound : ℕ) (c : Candidate) (cs : List Candidate)
    → min_rtt c.rtt cs ≤ bound
    → 0 < length (within bound (c ∷ cs))
unfolding within
within-first bound c cs h = elim (Bool-cases (leb c.rtt bound)) [
  | inl le ↦ rw le (omega arith)
  | inr gt ↦ rw gt (within-pos bound c.rtt cs h (leb→lt _ _ gt))
]

candidate_at-All :
    (P : Candidate → Type 0) (cs : List Candidate) (i : ℕ)
    → All P cs
    → i < length cs
    → (c : Candidate) × (candidate_at cs (some i) ≡ picked c.idx) × P c
candidate_at-All P [] i h k = absurd (omega arith)
candidate_at-All P (c ∷ cs) zero (h, hs) k = (c, refl, h)
candidate_at-All P (c ∷ cs) (suc i) (h, hs) k = candidate_at-All P cs i hs (omega arith)

-- What a good choice is, against a channel in use that takes `r`.
abbrev pub IsGood : EchPool → ℕ → Picked × EchPool → Type 0
IsGood p r chosen =
    (idx : ℕ) × (rtt : ℕ) × (chosen.0 ≡ picked idx)
    × (live_at p.dial_timeout p.channels idx ≡ some rtt)
    × (rtt ≤ r + tie_window)

choose-IsGood :
    (p : EchPool) (r : ℕ) (cs : List Candidate)
    → p.select_counter < 2 ^ 63
    → r + tie_window < 2 ^ 63
    → ((m : ℕ) → All (λ c. m ≤ c.rtt) cs → m ≤ r)
    → All (IsLive p.dial_timeout 0 p.channels) cs
    → IsGood p r (choose cs p)
unfolding choose near pick
choose-IsGood p r [] n w low live = absurd (omega (arith, low (suc r) tt))
choose-IsGood p r (c ∷ cs) n w low live =
    let m = min_rtt c.rtt cs in
    let l = min_rtt-IsLower c.rtt cs in
    let le = low m (l.start, l.others) in
    let close_by = within (m + tie_window) (c ∷ cs) in
    let some_near : 0 < length close_by = within-first (m + tie_window) c cs (omega arith) in
    let i = p.select_counter % length close_by in
    let (d, e, ((k, f, at), b)) =
      candidate_at-All (λ d. IsLive p.dial_timeout 0 p.channels d × (d.rtt ≤ m + tie_window))
        close_by i (within-All _ (m + tie_window) (c ∷ cs) live) (omega arith) in
    let is_near : near m (c ∷ cs) ≡ close_by =
      rw (lt→ltb (m + tie_window) (2 ^ 63) (omega arith)) in
    (
      d.idx,
      d.rtt,
      rw (is_near, ne→== (length close_by) 0 (λ z. omega arith), lt→ltb p.select_counter (2 ^ 63) n)
          e,
      ap (live_at p.dial_timeout p.channels) (omega (arith, f)) ∙ at,
      omega (arith, b, le),
    )

-- Against every channel in use, at any index and with any time, the choice is good, while the
-- counter and the times are far from the end of their 64 bits: a channel in use is picked, and it
-- takes at most 10 ms longer than that one.
pub select_channel-IsGood :
    (p : EchPool) (j r : ℕ)
    → live_at p.dial_timeout p.channels j ≡ some r
    → p.select_counter < 2 ^ 63
    → r + tie_window < 2 ^ 63
    → IsGood p r (select_channel p)
unfolding select_channel
select_channel-IsGood p j r e n w =
    choose-IsGood p r (candidates p.dial_timeout 0 p.channels) n w
      (λ m. candidates-lower p.dial_timeout 0 m j r p.channels e)
      (candidates-IsLive p.dial_timeout 0 p.channels)
