-- ===== src/Http/Target.antt =====
-- The targets of HTTP requests.
use pisaller.Base.{ℕ, ◌≡◌, refl, ◌==◌, true, false, none, List, [], ◌∷◌, ◌++◌, Bool-cases, inl, inr}
use pisaller.Base.Text.{contains, split_first-append, split_bracketed, split_host_port}
use pisaller.Http.{Request, target_of}

contains-append : (sep : ℕ) (s t : List ℕ) → contains sep s ≡ true → contains sep (s ++ t) ≡ true
unfolding contains
contains-append sep [] t h = absurd (cc h)
contains-append sep (x ∷ s) t h = elim (Bool-cases (x == sep)) [
  | inl e ↦ rw e refl
  | inr e ↦ rw e (contains-append sep s t (rw e at h))
]

-- The bug of the address without a port: a request for an IPv6 address in brackets has a colon in
-- its host, so no port is added, and its target does not split into host and port.
pub bracketed_host_lacks_port :
    (h : List ℕ) (req : Request)
    → req.host ≡ b'[' ∷ (h ++ (b']' ∷ []))
    → contains b':' h ≡ true
    → contains b']' h ≡ false
    → (target_of req ≡ req.host) × (split_host_port (target_of req) ≡ none)
unfolding target_of split_host_port split_bracketed contains
bracketed_host_lacks_port h req e colon plain =
    let (close, parts) = split_first-append b']' h [] plain in
    let kept : target_of req ≡ req.host = rw (e, contains-append b':' h (b']' ∷ []) colon) refl in
    (
      kept,
      rw (kept, e)
          (let unparted : split_bracketed (h ++ (b']' ∷ [])) ≡ none = rw (close, parts) refl in
            unparted),
    )
