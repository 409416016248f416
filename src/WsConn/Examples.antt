-- ===== src/WsConn/Examples.antt =====
-- Runs of a connection, and the theorems at concrete ones.
use pisaller.Base.{◌≡◌, refl, inl, [], ◌∷◌, none, some, true, false, closed, failure, arith}
use pisaller.WsConn.{
  WsConn, Socket, text, binary, no_writer, ws_write, ws_close, ws_read, write_open, enqueue,
  flush_locked, write_direct, read_messages,
}
use pisaller.WsConn.Queue.{IsGathered, ws_write-IsGathered}
use pisaller.WsConn.Delivery.{IsHealthy, accounted, writes, fires, run, run-accounted}
use pisaller.WsConn.Closing.{ws_close_drops}
use pisaller.WsConn.Deadlines.{Timed, set_deadline}
use pisaller.WsConn.Reading.{Reads, ws_read-Reads}

abbrev peer : Socket
peer = record {
  messages =
      text
      ∷ binary (record { left = []; eager = false; fault = none })
      ∷ binary (record { left = 1 ∷ 2 ∷ 3 ∷ []; eager = false; fault = none })
      ∷ [];
  end_error = failure 1;
  planned = [];
  on_close = none;
}

-- A pack of four bytes and a queue of eight.
abbrev conn : WsConn
conn = record {
  incoming = peer.messages;
  ending = failure 1;
  sent = [];
  outcomes = [];
  close_error = none;
  reader = none;
  dead_err = none;
  dead = false;
  closed_flag = false;
  up_queue = [];
  up_size = 0;
  up_pack = 4;
  chunk_ms = 20;
  timer = false;
  max_queue = 8;
}

-- Three bytes wait in the queue.
abbrev holding : WsConn
holding = record conn { up_queue = (1 ∷ 2 ∷ 3 ∷ []) ∷ []; up_size = 3; timer = true }

conn-IsGathered : IsGathered conn
conn-IsGathered = record {
  sized = refl;
  below = omega arith;
  bounded = omega arith;
  armed = inl refl;
  ticking = omega arith;
}

conn-IsHealthy : IsHealthy conn
conn-IsHealthy = record { still_open = refl; no_failure = refl }

-- A write that fills the pack sends everything as one message.
full_pack : (ws_write (4 ∷ []) holding).1 ≡ record conn { sent = (1 ∷ 2 ∷ 3 ∷ 4 ∷ []) ∷ [] }
unfolding ws_write write_open enqueue flush_locked write_direct
full_pack = refl

-- The flush of the full pack fails: the write counts no byte, and the connection is dead.
failed_flush :
    (ws_write (4 ∷ []) (record holding { outcomes = no_writer (failure 7) ∷ [] })).0
    ≡ (0, some (failure 7))
unfolding ws_write write_open enqueue flush_locked write_direct
failed_flush = refl

-- The empty message and the text are passed over.
first_read : (ws_read 2 conn).0 ≡ (1 ∷ 2 ∷ [], none)
unfolding ws_read read_messages
first_read = refl

ws_write-IsGathered_example : IsGathered (ws_write (1 ∷ 2 ∷ []) conn).1
ws_write-IsGathered_example = ws_write-IsGathered (1 ∷ 2 ∷ []) conn conn-IsGathered

run-accounted_example :
    accounted
      (run (writes (1 ∷ 2 ∷ []) ∷ writes (3 ∷ 4 ∷ 5 ∷ []) ∷ fires ∷ writes (6 ∷ []) ∷ []) conn)
    ≡ 1 ∷ 2 ∷ 3 ∷ 4 ∷ 5 ∷ 6 ∷ []
run-accounted_example =
    run-accounted (writes (1 ∷ 2 ∷ []) ∷ writes (3 ∷ 4 ∷ 5 ∷ []) ∷ fires ∷ writes (6 ∷ []) ∷ [])
      conn conn-IsHealthy refl

ws_close_drops_example :
    let d = (ws_close holding).1 in
    (d.sent ≡ [])
    × (d.up_queue ≡ [])
    × (d.up_size ≡ 0)
    × (d.timer ≡ false)
    × (d.closed_flag ≡ true)
    × (d.dead ≡ true)
    × (d.dead_err ≡ some closed)
ws_close_drops_example = ws_close_drops holding refl (λ e. omega arith)

ws_read-Reads_example : Reads 2 (1 ∷ 2 ∷ 3 ∷ []) (ws_read 2 conn)
ws_read-Reads_example =
    ws_read-Reads 2 conn (omega arith) refl tt
      (tt, ((λ e. absurd (cc e)), ((λ e. absurd (cc e)), tt)))

-- A WebSocket that takes the deadline for reads alone.
abbrev timed : Timed
timed = record {
  conn = conn;
  read_deadline = 0;
  write_deadline = 0;
  read_refused = none;
  write_refused = some (failure 3);
}

half_set : set_deadline 9 timed ≡ (some (failure 3), record timed { read_deadline = 9 })
unfolding set_deadline
half_set = refl
