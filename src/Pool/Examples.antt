-- ===== src/Pool/Examples.antt =====
-- A pool of four channels, and the theorem at it.
use pisaller.Base.{ℕ, ◌≡◌, refl, [], ◌∷◌, none, some, ok, err, true, false, failure, arith}
use pisaller.Base.Int.{pos}
use pisaller.Pool.{
  Channel, EchPool, panics, candidates, min_rtt, within, near, pick, choose, select_channel,
  open_at, open_best_stream, install, store_rtt, set_channel,
}
use pisaller.Pool.Serve.{
  Slot, Reach, start, installs, first_probe, dies, prober_ends, dead_is_done, clears, here, next,
}
use pisaller.Pool.Serve.Entry.{IsFit, Reach-IsFit}
use pisaller.Pool.Choice.{IsGood, select_channel-IsGood}

abbrev channel : ℕ → Channel
channel t = record {
  smux_conn = some (record { is_closed = false; open_stream = ok t });
  rtt = pos t;
}

abbrev shut : Channel
shut = record {
  smux_conn = some (record { is_closed = true; open_stream = err (failure 3) });
  rtt = pos 1;
}

abbrev pool : EchPool
pool = record {
  channels = shut ∷ channel 50000000 ∷ channel 30000000 ∷ channel 39000000 ∷ [];
  select_counter = 1;
  dial_timeout = 5000000000;
}

abbrev unchanged : EchPool → EchPool
unchanged p = p

-- The second of the two near channels has its turn, and is the fourth of the pool.
second_turn : (open_best_stream unchanged pool).0 ≡ some (ok (39000000, 4))
unfolding open_best_stream select_channel choose candidates min_rtt within near pick open_at
second_turn = refl

-- A counter behind 2^63 gives a negative index.
late_counter : (select_channel (record pool { select_counter = 9223372036854775809 })).0 ≡ panics
unfolding select_channel choose candidates min_rtt within near pick
late_counter = refl

-- A new session is one without a time: it counts with the dial timeout.
renewed :
    (store_rtt 0 (pos 7) (install 0 none pool)).channels
    ≡ record { smux_conn = none; rtt = pos 7 }
      ∷ channel 50000000
      ∷ channel 30000000
      ∷ channel 39000000
      ∷ []
unfolding store_rtt install set_channel
renewed = refl

select_channel-IsGood_example : IsGood pool 30000000 (select_channel pool)
select_channel-IsGood_example =
    select_channel-IsGood pool 2 30000000 refl (omega arith) (omega arith)

-- A channel that is dialled, probed, dies, and is cleared.
abbrev one_life : Slot
one_life = record start { dialled = 8 ∷ []; shut = 8 ∷ []; sess_closed = true }

one_life-Reach : Reach 100 one_life
one_life-Reach =
    next
      (next
        (next (next (next (next here (installs 8 refl)) (first_probe 8 30 refl)) (dies 8 refl))
          (prober_ends refl refl))
        (dead_is_done 8 refl refl))
      (clears 8 refl)

Reach-IsFit_example : IsFit one_life
Reach-IsFit_example = Reach-IsFit 100 one_life-Reach
