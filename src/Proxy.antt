-- ===== src/Proxy.antt =====
-- proxyConn of cmd/client/main.go: two goroutines that copy between the user's connection and the
-- stream, as a step relation.
pub mod Copying
pub mod HalfClose
mod Examples
use pisaller.Base.{ℕ, ◌+◌, ◌≡◌, Bool, true, false, List, [], ◌∷◌, ◌++◌, if◌then◌else◌}

-- One direction: what its source sends and whether it has ended, what its sink has taken, and
-- whether its io.Copy has returned.
pub record Link : Type 0 where
  pub sent : List ℕ
  pub ended : Bool
  pub given : List ℕ
  pub over : Bool

pub record ProxyConn : Type 0 where
  pub up : Link
  pub down : Link
  -- Whether closeOnce has run, and how often closeFunc has.
  pub closed : Bool
  pub closes : ℕ

abbrev pub fresh : Link
fresh = record { sent = []; ended = false; given = []; over = false }

abbrev pub start : ProxyConn
start = record { up = fresh; down = fresh; closed = false; closes = 0 }

-- A move of a direction; the last index says whether its io.Copy returns by it.
pub data Move (closed : Bool) (l : Link) : Link → Bool → Type 0 where
  -- The source sends, or ends.
  sends : (d : List ℕ) → l.ended ≡ false → Move closed l (record l { sent = l.sent ++ d }) false
  finishes : Move closed l (record l { ended = true }) false
  -- io.Copy passes bytes on, returns at the source's end, or fails behind some bytes.
  copies :
      (d rest : List ℕ)
      → l.over ≡ false
      → closed ≡ false
      → l.sent ≡ l.given ++ (d ++ rest)
      → Move closed l (record l { given = l.given ++ d }) false
  reaches_end :
      l.over ≡ false
      → l.ended ≡ true
      → l.sent ≡ l.given
      → Move closed l (record l { over = true }) true
  breaks :
      (d rest : List ℕ)
      → l.over ≡ false
      → l.sent ≡ l.given ++ (d ++ rest)
      → Move closed l (record l { given = l.given ++ d; over = true }) true

-- closeOnce.Do(closeFunc), behind an io.Copy that has returned.
abbrev pub close_once : Bool → ProxyConn → ProxyConn
close_once true s = if s.closed then s else record s { closed = true; closes = s.closes + 1 }
close_once false s = s

pub data Step (s : ProxyConn) : ProxyConn → Type 0 where
  up_moves :
      {l : Link} {b : Bool} → Move s.closed s.up l b → Step s (close_once b (record s { up = l }))
  down_moves :
      {l : Link} {b : Bool}
      → Move s.closed s.down l b
      → Step s (close_once b (record s { down = l }))

pub data Reach : ProxyConn → Type 0 where
  here : Reach start
  next : {s t : ProxyConn} → Reach s → Step s t → Reach t
