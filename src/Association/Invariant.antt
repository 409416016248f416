-- ===== src/Association/Invariant.antt =====
-- What holds of an association whatever its goroutines do, in any order.
use pisaller.Base.{
  ℕ, ◌≡◌, refl, Bool, true, false, Option, none, some, List, [], ◌∷◌, All, Option-cases, inl, inr,
  ◌⊎◌, arith, All-append, All-map, Result, ok, err,
}
use pisaller.Base.Text.{split_host_port}
use pisaller.Base.Parse.{Parse, done, fails, panics, stuck}
use pisaller.Stream.{Conn}
use pisaller.Address.{IpText}
use pisaller.Protocol.{write_chunk}
use pisaller.Association.{
  Association, new_association, close_association, adopt, adopt_first, deliver_to, send,
  after_write, write_data, deliver, port_of, handle_udp_response,
}
use pisaller.Association.Steps.{
  System, Step, takes, sends, writes, replies, closes, Reach, here, next,
}

abbrev pub IsSome {ℓ} : {A : Type ℓ} → Option A → Type 0
IsSome none = ⊥
IsSome (some a) = Unit {0}

-- Every datagram went to the client.
abbrev pub ToClient : Option (List ℕ) → List ℕ × List ℕ → Type 0
ToClient client (addr, pkt) = client ≡ some addr

-- A stream that is held is open and was opened; one that was opened and is not held is shut; before
-- the start there is none, and before the end nothing is shut; an association that has started and
-- is not closed holds one; a closed one holds none and has shut the listener and the TCP
-- connection; replies go to the client.
record IsSound (a : Association) : Type 0 where
  pub held : a.has_stream ≡ true → (a.closed ≡ false) × IsSome a.wire
  pub unshut : a.closed ≡ false → a.stream_shut ≡ false
  pub released : a.has_stream ≡ false → (a.stream_shut ≡ true) ⊎ (a.wire ≡ none)
  pub unstarted : a.receiving ≡ false → (a.has_stream ≡ false) × (a.wire ≡ none)
  pub holds : a.receiving ≡ true → a.closed ≡ false → a.has_stream ≡ true
  pub shut : a.closed ≡ true → (a.listener_shut ≡ true) × (a.tcp_shut ≡ true)
  pub to_client : All (ToClient a.client_udp_addr) a.delivered

close_association-IsSound : (a : Association) → IsSound a → IsSound (close_association a)
unfolding close_association
close_association-IsSound a s = ground arith

send-IsSound :
    (tgt d : List ℕ) (answer : Result (ℕ × Conn)) (a : Association)
    → IsSound a
    → IsSound (send tgt d answer a).1
unfolding send
send-IsSound tgt d (ok (ch, c)) a s = ground (arith, close_association-IsSound a s)
send-IsSound tgt d (err e) a s = ground (arith)

-- A replaced stream changes nothing of this.
rewired :
    (a : Association) (b c : Conn)
    → a.wire ≡ some b
    → IsSound a
    → IsSound (record a { wire = some c })
rewired a b c w s = record {
  held = λ h. ((s.held h).0, tt);
  unshut = s.unshut;
  released = λ h. still_shut (s.released h);
  unstarted = λ h. absurd (cc (w, (s.unstarted h).1));
  holds = s.holds;
  shut = s.shut;
  to_client = s.to_client;
}
  where
    still_shut : (a.stream_shut ≡ true) ⊎ (a.wire ≡ none) → (a.stream_shut ≡ true) ⊎ (some c ≡ none)
    still_shut (inl h) = inl h
    still_shut (inr h) = absurd (cc (w, h))

after_write-IsSound :
    (a : Association) (b : Conn) (r : Result (Unit {0}) × Conn)
    → a.wire ≡ some b
    → IsSound a
    → IsSound (after_write a r)
after_write-IsSound a b (ok done_, c) w s = rewired a b c w s
after_write-IsSound a b (err e, c) w s = close_association-IsSound _ (rewired a b c w s)

write_data-IsSound : (d : List ℕ) (a : Association) → IsSound a → IsSound (write_data d a)
unfolding write_data
write_data-IsSound d a s = elim (Option-cases a.wire) [
  | inl e ↦ rw (e, write_data) s
  | inr (c, e) ↦ rw (e, write_data) (after_write-IsSound a c (write_chunk d c) e s)
]

adopt-IsSound : (addr : List ℕ) (a : Association) → IsSound a → IsSound (adopt addr a)
adopt-IsSound addr a s = by_client a.client_udp_addr refl
  where
    by_client : (o : Option (List ℕ)) → a.client_udp_addr ≡ o → IsSound (adopt_first o addr a)
    by_client none e = record {
      held = s.held;
      unshut = s.unshut;
      released = s.released;
      unstarted = s.unstarted;
      holds = s.holds;
      shut = s.shut;
      to_client =
          All-map (ToClient a.client_udp_addr) (ToClient (some addr))
            (λ (x : List ℕ × List ℕ) h. absurd (cc (e, h))) a.delivered s.to_client;
    }
    by_client (some client) e = s

deliver-IsSound : (r : Parse (List ℕ)) (a : Association) → IsSound a → IsSound (deliver r a)
deliver-IsSound (done pkt) a s = by_client a.client_udp_addr refl
  where
    by_client : (o : Option (List ℕ)) → a.client_udp_addr ≡ o → IsSound (deliver_to o pkt a)
    by_client none e = s
    by_client (some client) e = record {
      held = s.held;
      unshut = s.unshut;
      released = s.released;
      unstarted = s.unstarted;
      holds = s.holds;
      shut = s.shut;
      to_client =
          All-append (ToClient a.client_udp_addr) a.delivered ((client, pkt) ∷ []) s.to_client
            (e, tt);
    }
deliver-IsSound (fails x) a s = s
deliver-IsSound panics a s = s
deliver-IsSound stuck a s = s

-- What of it is stated, as cases.
pub record IsSafe (a : Association) : Type 0 where
  pub held : (a.has_stream ≡ false) ⊎ ((a.closed ≡ false) × (a.stream_shut ≡ false) × IsSome a.wire)
  pub released : (a.has_stream ≡ true) ⊎ (a.stream_shut ≡ true) ⊎ (a.wire ≡ none)
  pub holds : (a.receiving ≡ false) ⊎ (a.closed ≡ true) ⊎ (a.has_stream ≡ true)
  pub shut : (a.closed ≡ false) ⊎ ((a.listener_shut ≡ true) × (a.tcp_shut ≡ true))
  pub to_client : All (ToClient a.client_udp_addr) a.delivered

imply {ℓ} : {P : Type ℓ} (b : Bool) → (b ≡ true → P) → (b ≡ false) ⊎ P
imply true h = inr (h refl)
imply false h = inl refl

started_holds :
    (r c h : Bool) → (r ≡ true → c ≡ false → h ≡ true) → (r ≡ false) ⊎ (c ≡ true) ⊎ (h ≡ true)
started_holds false c h f = inl refl
started_holds true true h f = inr (inl refl)
started_holds true false h f = inr (inr (f refl refl))

either {ℓ} : {P : Type ℓ} (b : Bool) → (b ≡ false → P) → (b ≡ true) ⊎ P
either true h = inl refl
either false h = inr (h refl)

IsSound-IsSafe : (a : Association) → IsSound a → IsSafe a
IsSound-IsSafe a s = record {
  held = imply a.has_stream (λ h. let (o, w) = s.held h in (o, s.unshut o, w));
  released = either a.has_stream s.released;
  holds = started_holds a.receiving a.closed a.has_stream s.holds;
  shut = imply a.closed s.shut;
  to_client = s.to_client;
}

module _ (ips : IpText) (scan : List ℕ → Option ℕ) (strategy : ℕ) where
  handle_udp_response-IsSound :
      (addr d : List ℕ) (a : Association)
      → IsSound a
      → IsSound (handle_udp_response ips scan addr d a)
  unfolding handle_udp_response
  handle_udp_response-IsSound addr d a s =
      elim (Option-cases (scan (port_of (split_host_port addr)))) [
        | inl e ↦ rw (e, handle_udp_response) s
        | inr (port, e) ↦ rw (e, handle_udp_response) (deliver-IsSound _ a s)
      ]

  Step-IsSound : {s t : System} → Step ips scan strategy s t → IsSound s.assoc → IsSound t.assoc
  Step-IsSound {s} (takes addr b e f) h = adopt-IsSound addr s.assoc h
  Step-IsSound {s} (sends tgt d answer e) h = send-IsSound tgt d answer s.assoc h
  Step-IsSound {s} (writes d e) h = write_data-IsSound d s.assoc h
  Step-IsSound {s} (replies addr d e) h = handle_udp_response-IsSound addr d s.assoc h
  Step-IsSound {s} closes h = close_association-IsSound s.assoc h

  Reach-IsSound : {s : System} → Reach ips scan strategy s → IsSound s.assoc
  unfolding new_association
  Reach-IsSound here = record {
    held = λ h. absurd (cc h);
    unshut = λ h. refl;
    released = λ h. inr refl;
    unstarted = λ h. (refl, refl);
    holds = λ h. absurd (cc h);
    shut = λ h. absurd (cc h);
    to_client = tt;
  }
  Reach-IsSound (next r st) = Step-IsSound st (Reach-IsSound r)

  -- In every state that the goroutines can reach, in any order of their steps: a held stream was
  -- opened and has not been shut, an opened stream that is not held has been shut, an association
  -- that has started holds one unless it is closed, a closed one has shut the listener and the TCP
  -- connection, and every datagram went to the client that was adopted.
  pub Reach-IsSafe : {s : System} → Reach ips scan strategy s → IsSafe s.assoc
  Reach-IsSafe {s} r = IsSound-IsSafe s.assoc (Reach-IsSound r)
