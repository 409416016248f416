-- ===== src/DnAgg/Proxying/Accounting.antt =====
-- Which bytes the stream has taken when ProxyConnStream of internal/transport/dnagg.go closes it.
use pisaller.Base.{ℕ, ◌≡◌, false, List, ◌++◌}
use pisaller.DnAgg.Proxying.{Proxy}
use pisaller.DnAgg.Proxying.Sections.{taken, IsSteady}

-- The bytes that were there and then those that are read are there in the end.
Pumped : List ℕ → Proxy → Proxy → Type 0
Pumped d p q = (taken q ≡ taken p ++ d) × IsSteady 0 q × (q.agg.closed ≡ false)
