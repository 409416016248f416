-- ===== src/Proxy/HalfClose.antt =====
-- What becomes of an answer to a user that has ended its own direction.
use pisaller.Base.{ℕ, ◌≡◌, refl, sym, true, List, [], append-nil}
use pisaller.Proxy.{
  ProxyConn, sends, finishes, copies, reaches_end, breaks, up_moves, down_moves, Reach, here, next,
}

-- The bug of the half close: when the user has sent a request and ended its direction, the first
-- goroutine is done and closes both connections. So for any request and answer there is a run in
-- which the server has the whole request and has sent its answer, and the user gets nothing of it.
pub half_close_cuts :
    (request answer : List ℕ)
    → (s : ProxyConn) × Reach s
      × (s.up.given ≡ request)
      × (s.down.sent ≡ answer)
      × (s.down.given ≡ [])
      × (s.up.over ≡ true)
      × (s.down.over ≡ true)
      × (s.closes ≡ 1)
half_close_cuts request answer = (
  _,
  next
      (next
        (next
          (next (next (next here (up_moves (sends request refl))) (up_moves finishes))
            (up_moves (copies request [] refl refl (sym (append-nil request)))))
          (down_moves (sends answer refl)))
        (up_moves (reaches_end refl refl refl)))
      (down_moves (breaks [] answer refl refl)),
  refl,
  refl,
  refl,
  refl,
  refl,
  refl,
)
