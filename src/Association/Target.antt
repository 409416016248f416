-- ===== src/Association/Target.antt =====
-- Where the data of an association goes: to the target of its first datagram.
use pisaller.Base.{
  ℕ, ◌≤◌, ◌≡◌, refl, sym, ap, true, false, some, List, [], ◌++◌, length, append_assoc, append-nil,
  Result, ok,
}
use pisaller.Stream.{Conn, ◌>>=◌, return}
use pisaller.Protocol.{read_smux_open_header, read_chunk, write_smux_open_header}
use pisaller.Protocol.Framing.{
  header_bytes, chunk_bytes, written_header, read_header, written_chunk, read_one_chunk,
}
use pisaller.Association.{Association, retarget, send, write_data}

-- Two datagrams through the loop, with nothing in between; the stream's header has been written.
abbrev pub first_two : List ℕ → List ℕ → List ℕ → List ℕ → ℕ → Conn → Association → Association
first_two t₁ d₁ t₂ d₂ ch c a =
    let one = write_data d₁ (send t₁ d₁ (ok (ch, c)) a).1 in
    write_data d₂ (send t₂ d₂ (ok (ch, c)) one).1

-- What the relay reads of them: the header, and then the data.
abbrev pub relay_reads : Conn → Result ((ℕ × ℕ × List ℕ) × List ℕ × List ℕ) × Conn
relay_reads = do head ← read_smux_open_header; x ← read_chunk; y ← read_chunk; return (head, x, y)

sent_first :
    (t d : List ℕ) (ch : ℕ) (c : Conn) (a : Association)
    → a.closed ≡ false
    → a.receiving ≡ false
    → length d ≤ 65535
    → c.faults ≡ []
    → write_data d (send t d (ok (ch, c)) a).1 ≡ record a {
      receiving = true;
      target = t;
      wire = some (record c { output = c.output ++ chunk_bytes d });
      has_stream = true;
      channel_id = some ch;
    }
unfolding send write_data
sent_first t d ch c a o r l f = simp (o, r, written_chunk d c l f)

sent_later :
    (t d : List ℕ) (answer : Result (ℕ × Conn)) (c : Conn) (a : Association)
    → a.closed ≡ false
    → a.receiving ≡ true
    → a.has_stream ≡ true
    → a.wire ≡ some c
    → length d ≤ 65535
    → c.faults ≡ []
    → write_data d (send t d answer a).1 ≡ record a {
      target = retarget t a.target;
      wire = some (record c { output = c.output ++ chunk_bytes d });
    }
unfolding send write_data
sent_later t d answer c a o r s w l f = simp (o, r, s, w, written_chunk d c l f)

-- The bug of the second target: a datagram for another target changes the field `target`, but its
-- data goes out on the stream that was opened for the first one, behind which the relay finds no
-- address. So the relay reads the first target, and then the data of both datagrams.
pub first_two_misdirects :
    (t₁ d₁ t₂ d₂ : List ℕ) (strategy ch : ℕ) (w r : Conn) (a : Association)
    → a.closed ≡ false
    → a.receiving ≡ false
    → length t₁ ≤ 65535
    → length d₁ ≤ 65535
    → length d₂ ≤ 65535
    → w.faults ≡ []
    → w.output ≡ []
    → let b = first_two t₁ d₁ t₂ d₂ ch (write_smux_open_header 3 strategy t₁ w).1 a in
      (out : Conn) × (b.wire ≡ some out)
      × (b.target ≡ retarget t₂ t₁)
      × (relay_reads (record r { input = out.output })
          ≡ (ok ((3, strategy, t₁), d₁, d₂), record r { input = [] }))
first_two_misdirects t₁ d₁ t₂ d₂ strategy ch w r a o e h₁ k₁ k₂ f z = (
  out,
  ap (λ (x : Association). x.wire) both_sent,
  ap (λ (x : Association). x.target) both_sent,
  rw (
    read_header 3 strategy t₁ (chunk_bytes d₁ ++ chunk_bytes d₂) (record r { input = out.output })
        h₁ bytes,
    read_one_chunk d₁ (chunk_bytes d₂) (record r { input = chunk_bytes d₁ ++ chunk_bytes d₂ }) k₁
        refl,
    read_one_chunk d₂ [] (record r { input = chunk_bytes d₂ }) k₂
        (sym (append-nil (chunk_bytes d₂))),
  ),
)
  where
    c : Conn
    c = record w { output = w.output ++ header_bytes 3 strategy t₁ }

    c₁ : Conn
    c₁ = record c { output = c.output ++ chunk_bytes d₁ }

    out : Conn
    out = record c₁ { output = c₁.output ++ chunk_bytes d₂ }

    one : Association
    one = record a {
      receiving = true;
      target = t₁;
      wire = some c₁;
      has_stream = true;
      channel_id = some ch;
    }

    both_sent :
        first_two t₁ d₁ t₂ d₂ ch (write_smux_open_header 3 strategy t₁ w).1 a
        ≡ record one { target = retarget t₂ t₁; wire = some out }
    both_sent =
        rw (written_header 3 strategy t₁ w h₁ f, sent_first t₁ d₁ ch c a o e k₁ f)
          (sent_later t₂ d₂ (ok (ch, c)) c₁ one o refl refl refl k₂ f)

    bytes :
        ((w.output ++ header_bytes 3 strategy t₁) ++ chunk_bytes d₁) ++ chunk_bytes d₂
        ≡ header_bytes 3 strategy t₁ ++ (chunk_bytes d₁ ++ chunk_bytes d₂)
    bytes = rw z (append_assoc (header_bytes 3 strategy t₁) (chunk_bytes d₁) (chunk_bytes d₂))
