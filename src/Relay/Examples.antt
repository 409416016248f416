-- ===== src/Relay/Examples.antt =====
-- Streams at the relay, and the theorems at them.
use pisaller.Base.{
  ℕ, ◌≡◌, refl, List, [], ◌∷◌, none, some, true, false, eof, failure, ok, err, arith, Option, ◌++◌,
  map, ◌⊎◌,
}
use pisaller.Base.Int.{ℤ, pos, negsuc}
use pisaller.Base.Text.{split_host_port, split_last_colon, contains}
use pisaller.Stream.{Conn, write}
use pisaller.Protocol.{write_smux_open_header}
use pisaller.Dial.{Resolver}
use pisaller.Relay.{ends, tcp, udp, handle_smux_stream, resolve_udp_addr, uplink, bad_port}
use pisaller.Relay.Datagrams.{uplink-ends}
use pisaller.Relay.Udp.{
  write_to, timeout, Turn, upward, downward, open_socket, run_turns, handle_udp_stream,
}
use pisaller.Relay.Udp.Turns.{any_fails}
use pisaller.Relay.Udp.Arriving.{datagrams_arrive}
use pisaller.Relay.Tcp.{dialling, Step, Tunnel, start, Reach, here, next, reads, finished}
use pisaller.Relay.Tcp.Pipe.{Runs, empty, up, down, Reach-Runs}
use pisaller.Relay.Tcp.Loss.{early_end_loses}

abbrev conn : List ℕ → List ℕ → Conn
conn waiting sent = record {
  input = waiting;
  ending = eof;
  output = sent;
  faults = [];
  read_deadline = none;
  write_deadline = none;
}

abbrev no_literal : List ℕ → Option (List ℕ)
no_literal _ = none

abbrev net : Resolver
net = record { parse = no_literal; lookup = λ h. ok ((9 ∷ []) ∷ []) }

abbrev minus_one : List ℕ → Option ℤ
minus_one _ = some (negsuc 0)

-- "a:-1"
negative_port : resolve_udp_addr net minus_one (0x61 ∷ 0x3a ∷ 0x2d ∷ 0x31 ∷ []) 0 ≡ err bad_port
unfolding resolve_udp_addr split_host_port split_last_colon contains
negative_port = refl

-- A deadline ends the handler only behind the end of the other goroutine.
deadlines :
    (run_turns (9 ∷ [], 5) (downward timeout ∷ []) (open_socket (conn [] []))).returned ≡ false
unfolding run_turns
deadlines = refl

abbrev literal : Resolver
literal = record { parse = λ h. some (9 ∷ []); lookup = λ h. ok [] }

abbrev five : List ℕ → Option ℤ
five _ = some (pos 5)

-- The target "a" has no port of its own, and the chunks are one datagram and an empty one; a
-- deadline comes between, and one behind them, at which the handler returns.
abbrev turns : List Turn
turns =
    upward false none
    ∷ downward timeout
    ∷ upward false none
    ∷ upward false none
    ∷ downward timeout
    ∷ []

datagrams_arrive_example :
    let handled =
      handle_udp_stream literal five true turns 4 (0x61 ∷ []) (conn (0 ∷ 1 ∷ 7 ∷ 0 ∷ 0 ∷ []) []) in
    (handle_smux_stream (conn (3 ∷ 4 ∷ 0 ∷ 1 ∷ 0x61 ∷ 0 ∷ 1 ∷ 7 ∷ 0 ∷ 0 ∷ []) [])
      ≡ (ok (udp 4 (0x61 ∷ [])), conn (0 ∷ 1 ∷ 7 ∷ 0 ∷ 0 ∷ []) []))
    × ((rest : List (List ℕ)) × (handled.sent ++ map (write_to (9 ∷ [], 5)) rest
          ≡ (7 ∷ [], (9 ∷ [], 5)) ∷ [])
        × ((any_fails turns ≡ true) ⊎ (rest ≡ [])))
    × (handled.up_ended ≡ true)
unfolding resolve_udp_addr split_host_port split_last_colon contains write_smux_open_header write
    pisaller.Relay.udp_address
datagrams_arrive_example =
    datagrams_arrive literal five turns 4 (0x61 ∷ []) ((7 ∷ []) ∷ [] ∷ []) (9 ∷ [], 5) (conn [] [])
      (conn (3 ∷ 4 ∷ 0 ∷ 1 ∷ 0x61 ∷ 0 ∷ 1 ∷ 7 ∷ 0 ∷ 0 ∷ []) []) (omega arith)
      (omega arith, (omega arith, tt)) (omega arith) refl refl refl refl refl

uplink-ends_example : (uplink 6 (some (failure 1) ∷ []) (conn (0 ∷ 1 ∷ 5 ∷ 0 ∷ 9 ∷ []) [])).1 ≡ true
uplink-ends_example =
    uplink-ends 6 (some (failure 1) ∷ []) (conn (0 ∷ 1 ∷ 5 ∷ 0 ∷ 9 ∷ []) []) (omega arith)

abbrev one_read : Tunnel
one_read = record start { read_up = 1 ∷ 2 ∷ []; data_ch = (1 ∷ 2 ∷ []) ∷ [] }

one_read-Reach : Reach one_read
one_read-Reach = next here (reads (1 ∷ 2 ∷ []) refl (λ e. omega arith) (omega arith) refl)

Reach-Runs_example : Runs empty (up one_read) × Runs empty (down one_read)
Reach-Runs_example = Reach-Runs one_read-Reach

early_end_loses_example :
    (s t : Tunnel) × Reach s
    × (s.phase ≡ dialling)
    × (s.read_up ≡ 1 ∷ 2 ∷ [])
    × (s.reader_done ≡ true)
    × (s.err_ch ≡ eof ∷ [])
    × (s.dial_ch ≡ true)
    × (s.expired ≡ false)
    × Step s t
    × (t.phase ≡ finished)
    × (t.read_up ≡ 1 ∷ 2 ∷ [])
    × (t.to_target ≡ [])
    × (t.dial_ch ≡ true)
early_end_loses_example = early_end_loses ((1 ∷ 2 ∷ []) ∷ []) ((λ e. omega arith), tt) (omega arith)
