-- ===== src/Relay/Streams.antt =====
-- Streams that the client opens, at the relay.
use pisaller.Base.{ℕ, ◌≤◌, ◌≡◌, sym, ap, ◌∙◌, List, [], ◌++◌, length, append-nil, ok, arith}
use pisaller.Base.Text.{list_eq_refl}
use pisaller.Stream.{Conn}
use pisaller.Stream.Laws.{read_full-append, write_healthy}
use pisaller.Protocol.{write_smux_open_header}
use pisaller.Protocol.Framing.{header_bytes, written_header, read_header}
use pisaller.Pool.Probe.{probe_channel_rtt_once}
use pisaller.Relay.{ends, tcp, udp, pong, dispatch, handle_smux_stream}

-- What the client opens a stream for, the relay hands to the handler for it, with the client's
-- strategy and target, and what follows the header is left to the handler: TCP for the kind 2, UDP
-- for the kind 3.
pub handle_smux_stream-open :
    (strategy : ℕ) (target rest : List ℕ) (w r s : Conn)
    → length target ≤ 65535
    → w.faults ≡ []
    → w.output ≡ []
    → r.input ≡ (write_smux_open_header 2 strategy target w).1.output ++ rest
    → s.input ≡ (write_smux_open_header 3 strategy target w).1.output ++ rest
    → (handle_smux_stream r ≡ (ok (tcp strategy target), record r { input = rest }))
      × (handle_smux_stream s ≡ (ok (udp strategy target), record s { input = rest }))
unfolding handle_smux_stream dispatch
handle_smux_stream-open strategy target rest w r s h f o er es = (
  rw (read_header 2 strategy target rest r h (er ∙ bytes 2)),
  rw (read_header 3 strategy target rest s h (es ∙ bytes 3)),
)
  where
    bytes :
        (kind : ℕ)
        → (write_smux_open_header kind strategy target w).1.output ++ rest
          ≡ header_bytes kind strategy target ++ rest
    bytes kind = rw (written_header kind strategy target w h f, o)

-- A probe of eight bytes on a connection that takes it, with these bytes for its answer, succeeds;
-- and they are what the relay answers to what the probe has sent.
pub probe_answered :
    (payload rest : List ℕ) (c r : Conn)
    → length payload ≡ 8
    → c.faults ≡ []
    → c.output ≡ []
    → c.input ≡ payload ++ rest
    → r.faults ≡ []
    → r.input ≡ (probe_channel_rtt_once payload c).1.output
    → ((probe_channel_rtt_once payload c).0 ≡ ok tt)
      × (handle_smux_stream r ≡ (ok ends, record r { input = []; output = r.output ++ payload }))
unfolding handle_smux_stream dispatch pong probe_channel_rtt_once
probe_answered payload rest c r l f o i g e = (ap (λ x. x.0) probed, answered)
  where
    sent : List ℕ
    sent = (c.output ++ header_bytes 1 0 []) ++ payload

    probed : probe_channel_rtt_once payload c ≡ (ok tt, record c { input = rest; output = sent })
    probed =
        let c₁ : Conn = record c { output = c.output ++ header_bytes 1 0 [] } in
        rw (written_header 1 0 [] c (omega arith) f, write_healthy payload c₁ f)
          (rw (
            read_full-append 8 payload rest (record c { output = sent }) (sym l) i,
            list_eq_refl payload,
          ))

    arrived : r.input ≡ header_bytes 1 0 [] ++ payload
    arrived = e ∙ ap (λ x. x.1.output) probed ∙ rw o

    answered :
        handle_smux_stream r ≡ (ok ends, record r { input = []; output = r.output ++ payload })
    answered =
        let r₁ : Conn = record r { input = payload } in
        rw (read_header 1 0 [] payload r (omega arith) arrived) (
          rw (
            read_full-append 8 payload [] r₁ (sym l) (sym (append-nil payload)),
            write_healthy payload (record r { input = [] }) g,
          ))
