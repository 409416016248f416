-- ===== src/WsConn/Reading.antt =====
-- Reads: the binary messages that wait are one stream of bytes.
use pisaller.Base.{
  ℕ, zero, suc, ◌≤◌, ◌<◌, ◌≡◌, ◌≢◌, refl, sym, ap, ◌∙◌, ◌⊎◌, inl, inr, Bool, true, false, Option,
  none, some, List, [], ◌∷◌, ◌++◌, length, take, drop, All, arith, if_split, Bool-cases,
  append_assoc, take-append-drop, Error, eof, lt→ltb, ◌&&◌, append-nil,
}
use pisaller.WsConn.{
  WsConn, Reader, Message, text, binary, read_message, settle, read_messages, read_on, ws_read,
  signal_dead, is_eof, is_empty,
}

-- A message that breaks off does so with an error other than io.EOF.
abbrev pub IsReader : Reader → Type 0
IsReader r = r.fault ≢ some eof

abbrev pub IsMessage : Message → Type 0
IsMessage text = Unit {0}
IsMessage (binary r) = IsReader r

-- The bytes that are still to come; behind a message that breaks off there are none.
abbrev pub behind : Option Error → List ℕ → List ℕ
behind none rest = rest
behind (some e) rest = []

abbrev pub waiting : List Message → List ℕ
waiting [] = []
waiting (text ∷ ms) = waiting ms
waiting (binary r ∷ ms) = r.left ++ behind r.fault (waiting ms)

abbrev pub pending_from : Option Reader → List Message → List ℕ
pending_from none ms = waiting ms
pending_from (some r) ms = r.left ++ behind r.fault (waiting ms)

abbrev pub pending : WsConn → List ℕ
pending c = pending_from c.reader c.incoming

-- What a Read into `n` bytes makes of the stream `s`: at least one byte and at most `n` from its
-- front, without an error; or an error at its end.
abbrev pub Reads : ℕ → List ℕ → (List ℕ × Option Error) × WsConn → Type 0
Reads n s r =
    ((r.0.1 ≡ none) × (0 < length r.0.0) × (length r.0.0 ≤ n) × (s ≡ r.0.0 ++ pending r.1))
    ⊎ ((e : Error) × (r.0 ≡ ([], some e)) × (s ≡ []) × (pending r.1 ≡ []))

not_eof : (e : Error) → some e ≢ some eof → is_eof e ≡ false
not_eof eof h = absurd (h refl)
not_eof _ h = refl

take-le : (n : ℕ) (xs : List ℕ) → length (take n xs) ≤ n
take-le zero xs = omega arith
take-le (suc n) [] = omega arith
take-le (suc n) (x ∷ xs) = omega (arith, take-le n xs)

is_empty→eq : (xs : List ℕ) → is_empty xs ≡ true → xs ≡ []
is_empty→eq [] h = refl
is_empty→eq (x ∷ xs) h = cc

and_right : (a b : Bool) → (a && b) ≡ true → b ≡ true
and_right true b h = h
and_right false b h = cc

-- One Read of a reader, in front of the messages `c.incoming`.
settle-Reads :
    (n : ℕ) (left : List ℕ) (eager : Bool) (fault : Option Error) (c : WsConn)
    (again : (List ℕ × Option Error) × WsConn)
    → 0 < n
    → fault ≢ some eof
    → Reads n (waiting c.incoming) again
    → let r : Reader = record { left = left; eager = eager; fault = fault } in
      Reads n (left ++ behind fault (waiting c.incoming)) (settle (read_message n r) c again)
unfolding signal_dead
settle-Reads zero left eager fault c again p h g = absurd (omega arith)
settle-Reads (suc n) [] eager none c again p h g = g
settle-Reads (suc n) [] eager (some e) c again p h g = rw (not_eof e h) (inr (e, refl, refl, refl))
settle-Reads (suc n) (x ∷ xs) eager (some e) c again p h g = inl (
  refl,
  omega arith,
  omega (arith, take-le n xs),
  ap (λ t. x ∷ (t ++ [])) (sym (take-append-drop n xs)) ∙ simp append-nil,
)
settle-Reads (suc n) (x ∷ xs) eager none c again p h g =
    elim (Bool-cases (eager && is_empty (drop n xs))) [
      | inl over ↦
          let gone = is_empty→eq (drop n xs) (and_right eager (is_empty (drop n xs)) over) in
          rw (over, lt→ltb 0 (length (take (suc n) (x ∷ xs))) (omega arith))
            (inl (
              refl,
              omega arith,
              omega (arith, take-le n xs),
              ap (λ t. x ∷ (t ++ waiting c.incoming))
                  (sym (take-append-drop n xs)
                    ∙ ap (λ t. take n xs ++ t) gone
                    ∙ append-nil (take n xs)),
            ))
      | inr more ↦ rw more (
          inl (
            refl,
            omega arith,
            omega (arith, take-le n xs),
            ap (λ t. x ∷ (t ++ waiting c.incoming)) (sym (take-append-drop n xs))
                ∙ ap (◌∷◌ x) (append_assoc (take n xs) (drop n xs) (waiting c.incoming)),
          ))
    ]

read_messages-Reads :
    (n : ℕ) (ms : List Message) (c : WsConn)
    → 0 < n
    → All IsMessage ms
    → Reads n (waiting ms) (read_messages n ms c)
unfolding read_messages signal_dead
read_messages-Reads n [] c p h = inr (c.ending, refl, refl, refl)
read_messages-Reads n (text ∷ ms) c p h = read_messages-Reads n ms c p h.1
read_messages-Reads n (binary r ∷ ms) c p (h, hs) =
    settle-Reads n r.left r.eager r.fault (record c { incoming = ms }) (read_messages n ms c) p h
      (read_messages-Reads n ms c p hs)

abbrev pub IsReady : Option Reader → Type 0
IsReady none = Unit {0}
IsReady (some r) = IsReader r

-- A Read into a nonempty buffer of an open connection takes at least one byte off the front of the
-- stream of the binary messages, whatever messages they stand in, and leaves the rest; or the
-- stream is used up, and it returns an error. It does not go round for ever.
pub ws_read-Reads :
    (n : ℕ) (c : WsConn)
    → 0 < n
    → c.closed_flag ≡ false
    → IsReady c.reader
    → All IsMessage c.incoming
    → Reads n (pending c) (ws_read n c)
unfolding ws_read
ws_read-Reads n c p open_ h hs =
    if_split (Reads n (pending c)) c.closed_flag (λ shut. absurd (cc (open_))) λ _. on c.reader h
  where
    rest : Reads n (waiting c.incoming) (read_messages n c.incoming c)
    rest = read_messages-Reads n c.incoming c p hs

    on : (o : Option Reader) → IsReady o → Reads n (pending_from o c.incoming) (read_on n o c)
    on none k = rest
    on (some r) k = settle-Reads n r.left r.eager r.fault c (read_messages n c.incoming c) p k rest
