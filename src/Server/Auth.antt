-- ===== src/Server/Auth.antt =====
-- Who gets in.
use pisaller.Base.{
  ℕ, ◌≡◌, inl, inr, sym, ap, ◌∙◌, Bool, true, false, List, [], ◌∷◌, ◌++◌, length, All, none, arith,
  append-nil, append_assoc, Bool-cases,
}
use pisaller.Base.Int.{ℤ, is_pos}
use pisaller.Base.Bytes.{IsByte}
use pisaller.Stream.{Conn}
use pisaller.Base.Text.{list_eq, list_eq_refl}
use pisaller.Protocol.{handshake_ok, handshake_fail}
use pisaller.Protocol.Handshake.{read_request, written_response}
use pisaller.Uuid.{remove_dashes}
use pisaller.Uuid.Decode.{hex, decode_string-hex, length-hex}
use pisaller.Server.{
  good, check_uuid, loaded, load_auth_uuids, is_allowed, Verdict, dropped, welcomed, answer_request,
  serve_handshake,
}

-- Texts that spell the UUIDs: without its dashes, each is the hexadecimal form of 16 bytes.
abbrev pub Spells : List (List ℕ) → List (List ℕ) → Type 0
Spells [] [] = Unit {0}
Spells (s ∷ ss) (b ∷ bs) =
    ((remove_dashes s ≡ hex b) × (length b ≡ 16) × All IsByte b) × Spells ss bs
Spells _ _ = ⊥

check_uuid-hex :
    (s b : List ℕ) → remove_dashes s ≡ hex b → length b ≡ 16 → All IsByte b → check_uuid s ≡ good b
unfolding check_uuid
check_uuid-hex s b e l h =
    let two : length (hex b) ≡ 32 = omega (arith, length-hex b) in
    simp (e, two, decode_string-hex b h, l)

load_behind :
    (bins ss bs : List (List ℕ)) → Spells ss bs → load_auth_uuids bins ss ≡ loaded (bins ++ bs)
unfolding load_auth_uuids
load_behind bins [] [] h = rw (append-nil bins)
load_behind bins [] (b ∷ bs) h = absurd h
load_behind bins (s ∷ ss) [] h = absurd h
load_behind bins (s ∷ ss) (b ∷ bs) ((e, l, hb), hs) =
    rw (check_uuid-hex s b e l hb)
      (load_behind (bins ++ (b ∷ [])) ss bs hs ∙ ap loaded (append_assoc bins (b ∷ []) bs))

-- Texts that spell UUIDs in lower-case hexadecimal, with dashes anywhere, are loaded as the UUIDs,
-- in order.
pub load_auth_uuids-hex : (ss bs : List (List ℕ)) → Spells ss bs → load_auth_uuids [] ss ≡ loaded bs
load_auth_uuids-hex ss bs h = load_behind [] ss bs h

abbrev pub response_code : Bool → ℕ
response_code true = handshake_ok
response_code false = handshake_fail

abbrev pub verdict : Bool → List ℕ → Verdict
verdict true uuid = welcomed uuid
verdict false uuid = dropped

-- A handshake that comes whole, on a connection that takes the answer and with a positive timeout,
-- is answered by a status: handshake_ok and a session under the UUID if the UUID is one of the
-- configured ones, and else handshake_fail and no session. The bytes behind the request stay
-- unread, and no deadline stays set.
pub serve_handshake_whole :
    (now later : ℕ) (timeout : ℤ) (bins : List (List ℕ)) (uuid rest : List ℕ) (c : Conn)
    → is_pos timeout ≡ true
    → length uuid ≡ 16
    → c.faults ≡ []
    → c.input ≡ 0x10 ∷ (uuid ++ rest)
    → serve_handshake now later timeout bins c ≡ (
      verdict (is_allowed uuid bins) uuid,
      record c {
        input = rest;
        read_deadline = none;
        output = c.output ++ (0x11 ∷ response_code (is_allowed uuid bins) ∷ []);
        write_deadline = none;
      },
    )
unfolding serve_handshake answer_request
serve_handshake_whole now later timeout bins uuid rest c t l f i =
    let d : Conn = record c { input = rest; read_deadline = none } in
    rw (read_request now uuid rest timeout c t (sym l) i)
      (elim (Bool-cases (is_allowed uuid bins)) [
        | inl listed ↦ rw listed (rw (written_response later handshake_ok timeout d t f))
        | inr missing ↦ rw missing (rw (written_response later handshake_fail timeout d t f))
      ])

-- A configured UUID is allowed wherever it stands in the list.
pub is_allowed_configured :
    (uuid : List ℕ) (before after : List (List ℕ))
    → is_allowed uuid (before ++ (uuid ∷ after)) ≡ true
unfolding is_allowed
is_allowed_configured uuid [] after = rw (list_eq_refl uuid)
is_allowed_configured uuid (bin ∷ before) after = elim (Bool-cases (list_eq uuid bin)) [
  | inl listed ↦ rw listed
  | inr missing ↦ rw missing (is_allowed_configured uuid before after)
]
