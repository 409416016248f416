-- ===== src/Proxy/Examples.antt =====
-- A request whose answer is cut off, and the theorems at it.
use pisaller.Base.{[], ◌∷◌}
use pisaller.Proxy.Copying.{IsOrderly, Reach-IsOrderly}
use pisaller.Proxy.HalfClose.{half_close_cuts}

Reach-IsOrderly_example : IsOrderly (half_close_cuts (1 ∷ []) (2 ∷ [])).0
Reach-IsOrderly_example = Reach-IsOrderly (half_close_cuts (1 ∷ []) (2 ∷ [])).1
