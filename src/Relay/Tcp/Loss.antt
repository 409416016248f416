-- ===== src/Relay/Tcp/Loss.antt =====
-- What a stream loses that ends before its target has been dialled.
use pisaller.Base.{
  ℕ, ◌+◌, ◌≤◌, ◌≡◌, ◌≢◌, refl, true, false, List, [], ◌∷◌, ◌++◌, length, length-append, join,
  join-snoc, All, append_assoc, append-nil, arith, eof,
}
use pisaller.Relay.Tcp.{
  dialling, finished, Tunnel, Step, start, finish, reads, read_fails, dials, gives_up, Reach, here,
  next, data_ch_size,
}

-- The reader has put `ds` into dataCh, and nothing else has happened.
abbrev pub loaded : List (List ℕ) → Tunnel
loaded ds = record start { read_up = join ds; data_ch = ds }

loads :
    (acc ds : List (List ℕ))
    → Reach (loaded acc)
    → All (λ d. length d ≢ 0) ds
    → length acc + length ds ≤ data_ch_size
    → Reach (loaded (acc ++ ds))
loads acc [] r h n = rw (append-nil acc) r
loads acc (d ∷ ds) r (h, hs) n = rw (← append_assoc acc (d ∷ []) ds) (
    loads (acc ++ (d ∷ [])) ds (next r (reads d refl h (omega arith) (rw (join-snoc acc d)))) hs
      (omega (arith, length-append acc (d ∷ []))))

-- The bug of the early end: for up to 1024 nonempty reads of a stream there is a run in which the
-- stream's end comes behind them and goes to errCh as an error, the target is reached, with its
-- connection in dialCh, and the time for the dial is not over; and in the next step the handler
-- returns, the target has taken nothing of what was read, and the connection stays in dialCh.
pub early_end_loses :
    (ds : List (List ℕ))
    → All (λ d. length d ≢ 0) ds
    → length ds ≤ data_ch_size
    → (s t : Tunnel) × Reach s
      × (s.phase ≡ dialling)
      × (s.read_up ≡ join ds)
      × (s.reader_done ≡ true)
      × (s.err_ch ≡ eof ∷ [])
      × (s.dial_ch ≡ true)
      × (s.expired ≡ false)
      × Step s t
      × (t.phase ≡ finished)
      × (t.read_up ≡ join ds)
      × (t.to_target ≡ [])
      × (t.dial_ch ≡ true)
early_end_loses ds h n = (
  reached,
  finish reached,
  next (next all_read (read_fails eof refl refl)) (dials refl refl),
  refl,
  refl,
  refl,
  refl,
  refl,
  refl,
  gives_up refl (λ e. cc e) refl,
  refl,
  refl,
  refl,
  refl,
)
  where
    all_read : Reach (loaded ds)
    all_read = loads [] ds here h (omega (arith, n))

    reached : Tunnel
    reached = record (loaded ds) {
      reader_done = true;
      err_ch = eof ∷ [];
      dial_ch = true;
      dial_done = true;
    }
