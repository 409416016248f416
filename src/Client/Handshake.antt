-- ===== src/Client/Handshake.antt =====
-- The client's and the server's handshake with each other.
use pisaller.Base.{
  ℕ, ◌≡◌, refl, Bool, true, false, List, [], ◌∷◌, ◌++◌, length, append-nil, none, Result, ok, err,
  ap, ◌∙◌,
}
use pisaller.Base.Int.{ℤ, is_pos}
use pisaller.Stream.{Conn}
use pisaller.Protocol.{write_handshake_request}
use pisaller.Protocol.Handshake.{written_request, read_response}
use pisaller.Server.{serve_handshake, is_allowed}
use pisaller.Server.Auth.{verdict, response_code, serve_handshake_whole}
use pisaller.Base.{All, some}
use pisaller.Base.Bytes.{IsByte}
use pisaller.Uuid.{Identity, remove_dashes, init_uuid, get_uuid_bytes}
use pisaller.Uuid.Decode.{hex, init_uuid-hex}
use pisaller.Server.{loaded, load_auth_uuids, welcomed}
use pisaller.Server.Auth.{Spells, load_auth_uuids-hex, is_allowed_configured}
use pisaller.Client.{do_handshake, handshake_failed}

-- What doHandshake returns for a UUID that is allowed, or not.
abbrev pub expected : Bool → Result (Unit {0})
expected true = ok tt
expected false = err handshake_failed

do_handshake-answer :
    (now later : ℕ) (uuid : List ℕ) (timeout : ℤ) (allowed : Bool) (c : Conn)
    → is_pos timeout ≡ true
    → c.faults ≡ []
    → c.input ≡ 0x11 ∷ response_code allowed ∷ []
    → (do_handshake now later uuid timeout c).0 ≡ expected allowed
unfolding do_handshake
do_handshake-answer now later uuid timeout true c t f i =
    let d : Conn = record c { output = c.output ++ (0x10 ∷ uuid); write_deadline = none } in
    rw (written_request now uuid timeout c t f)
      (rw (read_response later (response_code true) [] timeout d t i) refl)
do_handshake-answer now later uuid timeout false c t f i =
    let d : Conn = record c { output = c.output ++ (0x10 ∷ uuid); write_deadline = none } in
    rw (written_request now uuid timeout c t f)
      (rw (read_response later (response_code false) [] timeout d t i) refl)

-- The two sides of a handshake agree. The server reads what the client has sent on a fresh stream,
-- and the client what the server answers; writes succeed, and the timeouts are positive. Then
-- doHandshake succeeds and the server runs a session under the client's UUID if this is one of the
-- configured ones, and else doHandshake fails and there is no session.
pub do_handshake-serve_handshake :
    (now later : ℕ) (t u : ℤ) (bins : List (List ℕ)) (uuid : List ℕ) (c s : Conn)
    → is_pos t ≡ true
    → is_pos u ≡ true
    → length uuid ≡ 16
    → c.faults ≡ []
    → c.output ≡ []
    → s.faults ≡ []
    → s.output ≡ []
    → s.input ≡ (write_handshake_request now uuid t c).1.output
    → c.input ≡ (serve_handshake now later u bins s).1.output
    → ((do_handshake now later uuid t c).0 ≡ expected (is_allowed uuid bins))
      × ((serve_handshake now later u bins s).0 ≡ verdict (is_allowed uuid bins) uuid)
do_handshake-serve_handshake now later t u bins uuid c s ht hu l fc oc fs os is ic =
    let sent : s.input ≡ 0x10 ∷ (uuid ++ []) =
      is
      ∙ ap (λ x. x.1.output) (written_request now uuid t c ht fc)
      ∙ rw (oc, append-nil uuid) refl in
    let served = serve_handshake_whole now later u bins uuid [] s hu l fs sent in
    (
      do_handshake-answer now later uuid t (is_allowed uuid bins) c ht fc
          (ic ∙ ap (λ x. x.1.output) served ∙ rw os refl),
      ap (λ x. x.0) served,
    )

-- A configured client gets in. Its UUID is a text that without its dashes is the hexadecimal form
-- of 16 bytes, in lower case, and the server's texts are such forms of UUIDs among which these
-- bytes are. Then the first InitUUID stores the bytes, LoadServerConfig loads the server's, and
-- between connections that take what is written, with positive timeouts, doHandshake succeeds and
-- the server runs a session under the bytes.
pub configured_client_welcomed :
    (now later : ℕ) (t u : ℤ) (st : Identity) (text uuid : List ℕ)
    (texts before after : List (List ℕ)) (c s : Conn)
    → st.once_done ≡ false
    → st.init_error ≡ none
    → All IsByte uuid
    → length uuid ≡ 16
    → remove_dashes text ≡ hex uuid
    → Spells texts (before ++ (uuid ∷ after))
    → is_pos t ≡ true
    → is_pos u ≡ true
    → c.faults ≡ []
    → c.output ≡ []
    → s.faults ≡ []
    → s.output ≡ []
    → s.input ≡ (write_handshake_request now uuid t c).1.output
    → c.input ≡ (serve_handshake now later u (before ++ (uuid ∷ after)) s).1.output
    → ((init_uuid text st).0 ≡ none)
      × (get_uuid_bytes (init_uuid text st).1 ≡ some uuid)
      × (load_auth_uuids [] texts ≡ loaded (before ++ (uuid ∷ after)))
      × ((do_handshake now later uuid t c).0 ≡ ok tt)
      × ((serve_handshake now later u (before ++ (uuid ∷ after)) s).0 ≡ welcomed uuid)
configured_client_welcomed now later t u st text uuid texts before after c s o i hb l e sp ht hu fc
      oc fs os is ic =
    let bins = before ++ (uuid ∷ after) in
    let allowed = is_allowed_configured uuid before after in
    let stored = init_uuid-hex text uuid st hb l e o i in
    let agreed =
      do_handshake-serve_handshake now later t u bins uuid c s ht hu l fc oc fs os is ic in
    (
      stored.0,
      stored.2,
      load_auth_uuids-hex texts bins sp,
      agreed.0 ∙ ap expected allowed,
      agreed.1 ∙ ap (λ b. verdict b uuid) allowed,
    )
