-- ===== src/Association/Steps.antt =====
-- The goroutines of an association as one step relation.
use pisaller.Base.{ℕ, ◌≡◌, true, Option, none, some, List, Result}
use pisaller.Stream.{Conn}
use pisaller.Address.{IpText}
use pisaller.Association.{
  Association, new_association, close_association, from_client, adopt, read_datagram, send,
  write_data, handle_udp_response,
}

-- Where the loop over the datagrams stands between two sections.
pub data Loop : Type 0 where
  idle : Loop
  sending : List ℕ → List ℕ → Loop
  writing : List ℕ → Loop

pub record System : Type 0 where
  pub assoc : Association
  pub loop : Loop

abbrev pub to_send : Option (List ℕ × List ℕ) → Loop
to_send none = idle
to_send (some (tgt, d)) = sending tgt d

abbrev pub to_write : Option (List ℕ) → Loop
to_write none = idle
to_write (some d) = writing d

abbrev pub start : System
start = record { assoc = new_association; loop = idle }

-- A datagram is taken from the client.
abbrev pub taken : IpText → ℕ → List ℕ → List ℕ → System → System
taken ips strategy addr b s = record {
  assoc = adopt addr s.assoc;
  loop = to_send (read_datagram ips strategy b);
}

-- The first section of send.
abbrev pub sent : List ℕ → List ℕ → Result (ℕ × Conn) → System → System
sent tgt d answer s =
    let r = send tgt d answer s.assoc in record { assoc = r.1; loop = to_write r.0 }

module _ (ips : IpText) (scan : List ℕ → Option ℕ) (strategy : ℕ) where
  -- The loop takes a datagram (one of somebody else changes nothing), sends, and writes; the reader
  -- of the stream has a reply; somebody closes.
  pub data Step (s : System) : System → Type 0 where
    takes :
        (addr b : List ℕ)
        → s.loop ≡ idle
        → from_client s.assoc.client_udp_addr addr ≡ true
        → Step s (taken ips strategy addr b s)
    sends :
        (tgt d : List ℕ) (answer : Result (ℕ × Conn))
        → s.loop ≡ sending tgt d
        → Step s (sent tgt d answer s)
    writes :
        (d : List ℕ)
        → s.loop ≡ writing d
        → Step s (record { assoc = write_data d s.assoc; loop = idle })
    replies :
        (addr d : List ℕ)
        → s.assoc.receiving ≡ true
        → Step s (record s { assoc = handle_udp_response ips scan addr d s.assoc })
    closes : Step s (record s { assoc = close_association s.assoc })

  pub data Reach : System → Type 0 where
    here : Reach start
    next : {s t : System} → Reach s → Step s t → Reach t
