-- ===== src/Listen/Accepting.antt =====
-- Which connections a listener serves.
use pisaller.Base.{ℕ, ◌≡◌, refl, true, false, List, [], ◌∷◌, ◌++◌}
use pisaller.Listen.{AcceptResult, accepts, listener_closed, accept_fails, accept_loop}

-- The connections among the answers.
pub conns : List AcceptResult → List ℕ
conns [] = []
conns (accepts conn ∷ more) = conn ∷ conns more
conns (listener_closed ∷ more) = conns more
conns (accept_fails ∷ more) = conns more

-- An open listener's answers.
abbrev pub IsOpen : List AcceptResult → Type 0
IsOpen [] = Unit {0}
IsOpen (accepts conn ∷ more) = IsOpen more
IsOpen (listener_closed ∷ more) = ⊥
IsOpen (accept_fails ∷ more) = IsOpen more

-- Until the listener is closed every connection gets a handler, in order and whatever other errors
-- come between; its closing ends the loop, and nothing behind it is served.
pub accept_loop-conns :
    (before after : List AcceptResult)
    → IsOpen before
    → (accept_loop before ≡ (conns before, false))
      × (accept_loop (before ++ (listener_closed ∷ after)) ≡ (conns before, true))
unfolding accept_loop conns
accept_loop-conns [] after h = (refl, refl)
accept_loop-conns (accepts conn ∷ before) after h =
    let (served, ended) = accept_loop-conns before after h in (rw served refl, rw ended refl)
accept_loop-conns (listener_closed ∷ before) after h = absurd h
accept_loop-conns (accept_fails ∷ before) after h = accept_loop-conns before after h
