-- ===== src/Relay/Tcp/Pipe.antt =====
-- The tunnel as a pair of pipes: what it promises of each direction, and that its steps keep it.
use pisaller.Base.{
  ℕ, ◌≡◌, ◌≢◌, refl, sym, ap, ◌∙◌, false, List, [], ◌∷◌, ◌++◌, take, drop, join, join-snoc,
  append_assoc, append-nil, take-append-drop,
}
use pisaller.Relay.Tcp.{
  Phase, forwarding, finished, Tunnel, Step, reads, read_fails, reader_stops, dials, dial_fails,
  dial_stops, connects, gives_up, times_out, expires, forwards, forward_fails, drains, stops,
  copies, copy_fails, copier_ends, Reach, here, next,
}

-- A pipe: the bytes that went in, and those that came out.
pub record Pipe : Type 0 where
  pub offered : List ℕ
  pub delivered : List ℕ

-- Bytes go in behind the others, and the next ones come out; nothing else happens.
pub data Runs (p : Pipe) : Pipe → Type 0 where
  rests : Runs p p
  offers : {q : Pipe} (d : List ℕ) → Runs p q → Runs p (record q { offered = q.offered ++ d })
  delivers :
      {q : Pipe} (d rest : List ℕ)
      → Runs p q
      → q.offered ≡ q.delivered ++ (d ++ rest)
      → Runs p (record q { delivered = q.delivered ++ d })

abbrev pub empty : Pipe
empty = record { offered = []; delivered = [] }

-- From the stream to the target, and back.
abbrev pub up : Tunnel → Pipe
up s = record { offered = s.read_up; delivered = s.to_target }

abbrev pub down : Tunnel → Pipe
down s = record { offered = s.read_down; delivered = s.to_stream }

-- Until the handler returns, what was read and is not at the target stands in dataCh; while the
-- copier works, the stream has taken all that it read.
pub record IsOrdered (s : Tunnel) : Type 0 where
  pub going_up : s.phase ≢ finished → s.read_up ≡ s.to_target ++ join s.data_ch
  pub going_down : s.copier_done ≡ false → s.read_down ≡ s.to_stream

forwarding-ne-finished : (p : Phase) → p ≡ forwarding → p ≢ finished
forwarding-ne-finished p e f = cc (e, f)

forwarded :
    (a b d : List ℕ) (ch q : List (List ℕ)) → a ≡ b ++ join ch → ch ≡ d ∷ q → a ≡ b ++ (d ++ join q)
forwarded a b d ch q e f = e ∙ ap (λ x. b ++ join x) f

Step-IsOrdered : {s t : Tunnel} → Step s t → IsOrdered s → IsOrdered t
Step-IsOrdered {s} (reads d r n l e) o = rw e (record {
  going_up = λ p.
      ap (λ x. x ++ d) (o.going_up p)
      ∙ append_assoc s.to_target (join s.data_ch) d
      ∙ ap (λ x. s.to_target ++ x) (sym (join-snoc s.data_ch d));
  going_down = o.going_down;
})
Step-IsOrdered (read_fails x r e) o =
    rw e (record { going_up = o.going_up; going_down = o.going_down })
Step-IsOrdered (reader_stops r c e) o =
    rw e (record { going_up = o.going_up; going_down = o.going_down })
Step-IsOrdered (dials r e) o = rw e (record { going_up = o.going_up; going_down = o.going_down })
Step-IsOrdered (dial_fails x r e) o =
    rw e (record { going_up = o.going_up; going_down = o.going_down })
Step-IsOrdered (dial_stops r c e) o =
    rw e (record { going_up = o.going_up; going_down = o.going_down })
Step-IsOrdered (connects p r e) o =
    rw e (record { going_up = λ _. o.going_up (λ f. cc (p, f)); going_down = o.going_down })
Step-IsOrdered (gives_up p r e) o =
    rw e (record { going_up = λ p. absurd (p refl); going_down = o.going_down })
Step-IsOrdered (times_out p x e) o =
    rw e (record { going_up = λ p. absurd (p refl); going_down = o.going_down })
Step-IsOrdered (expires e) o = rw e (record { going_up = o.going_up; going_down = o.going_down })
Step-IsOrdered {s} (forwards d q p f e) o = rw e (record {
  going_up = λ n.
      forwarded s.read_up s.to_target d s.data_ch q (o.going_up n) f
      ∙ sym (append_assoc s.to_target d (join q));
  going_down = o.going_down;
})
Step-IsOrdered (forward_fails d q n p f e) o =
    rw e (record { going_up = λ p. absurd (p refl); going_down = o.going_down })
Step-IsOrdered (drains p f r e) o =
    rw e (record { going_up = λ p. absurd (p refl); going_down = o.going_down })
Step-IsOrdered (stops p c e) o =
    rw e (record { going_up = λ p. absurd (p refl); going_down = o.going_down })
Step-IsOrdered (copies d p c e) o =
    rw e (record { going_up = o.going_up; going_down = λ c. ap (λ x. x ++ d) (o.going_down c) })
Step-IsOrdered (copy_fails d n p c e) o =
    rw e (record { going_up = o.going_up; going_down = λ c. absurd (cc c) })
Step-IsOrdered (copier_ends p c e) o =
    rw e (record { going_up = o.going_up; going_down = λ c. absurd (cc c) })

pub Reach-IsOrdered : {s : Tunnel} → Reach s → IsOrdered s
Reach-IsOrdered here = record { going_up = λ _. refl; going_down = λ _. refl }
Reach-IsOrdered (next r st) = Step-IsOrdered st (Reach-IsOrdered r)

-- A step is one of the upward pipe, or none.
up-Runs : {s t : Tunnel} → Step s t → IsOrdered s → Runs empty (up s) → Runs empty (up t)
up-Runs (reads d r n l e) o h = rw e (offers d h)
up-Runs (read_fails x r e) o h = rw e h
up-Runs (reader_stops r c e) o h = rw e h
up-Runs (dials r e) o h = rw e h
up-Runs (dial_fails x r e) o h = rw e h
up-Runs (dial_stops r c e) o h = rw e h
up-Runs (connects p r e) o h = rw e h
up-Runs (gives_up p r e) o h = rw e h
up-Runs (times_out p x e) o h = rw e h
up-Runs (expires e) o h = rw e h
up-Runs {s} (forwards d q p f e) o h = rw e (
    delivers d (join q) h (
      forwarded s.read_up s.to_target d s.data_ch q (o.going_up (forwarding-ne-finished s.phase p))
        f))
up-Runs {s} (forward_fails d q n p f e) o h = rw e (
    delivers (take n d) (drop n d ++ join q) h (
      forwarded s.read_up s.to_target d s.data_ch q (o.going_up (forwarding-ne-finished s.phase p))
        f
      ∙ ap (λ x. s.to_target ++ x)
          (ap (λ x. x ++ join q) (sym (take-append-drop n d))
            ∙ append_assoc (take n d) (drop n d) (join q))))
up-Runs (drains p f r e) o h = rw e h
up-Runs (stops p c e) o h = rw e h
up-Runs (copies d p c e) o h = rw e h
up-Runs (copy_fails d n p c e) o h = rw e h
up-Runs (copier_ends p c e) o h = rw e h

-- What is copied goes into the downward pipe and comes out of it.
copied :
    (d : List ℕ) (n : ℕ) (p : Pipe)
    → p.offered ≡ p.delivered
    → Runs empty p
    → Runs empty (record { offered = p.offered ++ d; delivered = p.delivered ++ take n d })
copied d n p e h =
    delivers (take n d) (drop n d) (offers d h)
      (ap (λ x. x ++ d) e ∙ ap (λ x. p.delivered ++ x) (sym (take-append-drop n d)))

copied_whole :
    (d : List ℕ) (p : Pipe)
    → p.offered ≡ p.delivered
    → Runs empty p
    → Runs empty (record { offered = p.offered ++ d; delivered = p.delivered ++ d })
copied_whole d p e h =
    delivers d [] (offers d h)
      (ap (λ x. x ++ d) e ∙ ap (λ x. p.delivered ++ x) (sym (append-nil d)))

down-Runs : {s t : Tunnel} → Step s t → IsOrdered s → Runs empty (down s) → Runs empty (down t)
down-Runs (reads d r n l e) o h = rw e h
down-Runs (read_fails x r e) o h = rw e h
down-Runs (reader_stops r c e) o h = rw e h
down-Runs (dials r e) o h = rw e h
down-Runs (dial_fails x r e) o h = rw e h
down-Runs (dial_stops r c e) o h = rw e h
down-Runs (connects p r e) o h = rw e h
down-Runs (gives_up p r e) o h = rw e h
down-Runs (times_out p x e) o h = rw e h
down-Runs (expires e) o h = rw e h
down-Runs (forwards d q p f e) o h = rw e h
down-Runs (forward_fails d q n p f e) o h = rw e h
down-Runs (drains p f r e) o h = rw e h
down-Runs (stops p c e) o h = rw e h
down-Runs {s} (copies d p c e) o h = rw e (copied_whole d (down s) (o.going_down c) h)
down-Runs {s} (copy_fails d n p c e) o h = rw e (copied d n (down s) (o.going_down c) h)
down-Runs (copier_ends p c e) o h = rw e h

-- Whatever the goroutines of a tunnel do, in any order, each direction is a run of a pipe: what the
-- target has taken came out in the order in which the stream was read, and likewise back.
pub Reach-Runs : {s : Tunnel} → Reach s → Runs empty (up s) × Runs empty (down s)
Reach-Runs here = (rests, rests)
Reach-Runs (next r st) =
    let o = Reach-IsOrdered r in let (u, d) = Reach-Runs r in (up-Runs st o u, down-Runs st o d)

-- A pipe's output is the front of its input.
Runs-front : {p : Pipe} → Runs empty p → (rest : List ℕ) × (p.offered ≡ p.delivered ++ rest)
Runs-front rests = ([], refl)
Runs-front (offers {q} d h) =
    let (rest, e) = Runs-front h in
    (rest ++ d, ap (λ x. x ++ d) e ∙ append_assoc q.delivered rest d)
Runs-front (delivers {q} d rest h e) = (rest, e ∙ sym (append_assoc q.delivered d rest))

-- In every reachable state what the target has taken is the front of what the stream was read for,
-- and what the stream has taken is the front of what the target was read for.
pub Reach-front :
    {s : Tunnel}
    → Reach s
    → ((rest : List ℕ) × (s.read_up ≡ s.to_target ++ rest))
      × ((rest : List ℕ) × (s.read_down ≡ s.to_stream ++ rest))
Reach-front r = let (u, d) = Reach-Runs r in (Runs-front u, Runs-front d)

-- When the handler, still forwarding, finds dataCh empty, the target has taken all that was read.
pub Reach-drained :
    {s : Tunnel} → Reach s → s.phase ≡ forwarding → s.data_ch ≡ [] → s.read_up ≡ s.to_target
Reach-drained {s} r p e =
    (Reach-IsOrdered r).going_up (forwarding-ne-finished s.phase p)
    ∙ ap (λ x. s.to_target ++ join x) e
    ∙ append-nil s.to_target
