-- ===== src/Proxy/Copying.antt =====
-- What the two goroutines keep, in any order of their steps.
use pisaller.Base.{
  ℕ, ◌+◌, ◌≡◌, refl, ap, sym, ◌∙◌, Bool, true, false, ◌||◌, List, [], ◌++◌, if◌then◌else◌,
  append_assoc, if_split,
}
use pisaller.Proxy.{
  Link, ProxyConn, Move, sends, finishes, copies, reaches_end, breaks, close_once, Step, up_moves,
  down_moves, Reach, here, next,
}

-- The sink has the beginning of what the source has sent.
pub record IsOrdered (l : Link) : Type 0 where
  pub rest : List ℕ
  pub split : l.sent ≡ l.given ++ rest

-- Both directions are ordered; the connections are closed as soon as one io.Copy has returned, and
-- once.
pub record IsOrderly (s : ProxyConn) : Type 0 where
  pub up : IsOrdered s.up
  pub down : IsOrdered s.down
  pub closes : s.closes ≡ (if s.closed then 1 else 0)
  pub over : (s.up.over || s.down.over) ≡ s.closed

Move-IsOrdered : {c : Bool} {l m : Link} {b : Bool} → Move c l m b → IsOrdered l → IsOrdered m
Move-IsOrdered {l = l} (sends d e) o = record {
  rest = o.rest ++ d;
  split = ap (λ x. x ++ d) o.split ∙ append_assoc l.given o.rest d;
}
Move-IsOrdered finishes o = record { rest = o.rest; split = o.split }
Move-IsOrdered {l = l} (copies d rest e f h) o = record {
  rest = rest;
  split = h ∙ sym (append_assoc l.given d rest);
}
Move-IsOrdered (reaches_end e f h) o = record { rest = o.rest; split = o.split }
Move-IsOrdered {l = l} (breaks d rest e h) o = record {
  rest = rest;
  split = h ∙ sym (append_assoc l.given d rest);
}

-- An io.Copy has returned by a move that says so, and else as before.
Move-over : {c : Bool} {l m : Link} {b : Bool} → Move c l m b → m.over ≡ (b || l.over)
Move-over (sends d e) = refl
Move-over finishes = refl
Move-over (copies d rest e f h) = refl
Move-over (reaches_end e f h) = refl
Move-over (breaks d rest e h) = refl

-- closeOnce keeps the rest, when the flags are right behind the move.
close_once-IsOrderly :
    (b : Bool) (s : ProxyConn)
    → IsOrdered s.up
    → IsOrdered s.down
    → s.closes ≡ (if s.closed then 1 else 0)
    → (s.up.over || s.down.over) ≡ (b || s.closed)
    → IsOrderly (close_once b s)
close_once-IsOrderly false s u d c o = record { up = u; down = d; closes = c; over = o }
close_once-IsOrderly true s u d c o =
    if_split IsOrderly s.closed (λ e. record { up = u; down = d; closes = c; over = o ∙ sym e })
      λ e. record {
        up = u;
        down = d;
        closes = ap (λ n. n + 1) (c ∙ ap (λ x. if x then 1 else 0) e);
        over = o;
      }

over_up : (b u d : Bool) → ((b || u) || d) ≡ (b || (u || d))
over_up true u d = refl
over_up false u d = refl

over_down : (b u d : Bool) → (u || (b || d)) ≡ (b || (u || d))
over_down true true d = refl
over_down true false d = refl
over_down false u d = refl

Step-IsOrderly : {s t : ProxyConn} → Step s t → IsOrderly s → IsOrderly t
Step-IsOrderly {s} (up_moves {l} {b} m) o =
    close_once-IsOrderly b (record s { up = l }) (Move-IsOrdered m o.up) o.down o.closes
      (ap (λ x. x || s.down.over) (Move-over m)
        ∙ over_up b s.up.over s.down.over
        ∙ ap (λ x. b || x) o.over)
Step-IsOrderly {s} (down_moves {l} {b} m) o =
    close_once-IsOrderly b (record s { down = l }) o.up (Move-IsOrdered m o.down) o.closes
      (ap (λ x. s.up.over || x) (Move-over m)
        ∙ over_down b s.up.over s.down.over
        ∙ ap (λ x. b || x) o.over)

-- In every state that the goroutines reach, in any order, each sink has the beginning of what its
-- source has sent, in order; and the two connections are closed, once, as soon as one of the
-- goroutines is done copying.
pub Reach-IsOrderly : {s : ProxyConn} → Reach s → IsOrderly s
Reach-IsOrderly here = record {
  up = record { rest = []; split = refl };
  down = record { rest = []; split = refl };
  closes = refl;
  over = refl;
}
Reach-IsOrderly (next r st) = Step-IsOrderly st (Reach-IsOrderly r)
