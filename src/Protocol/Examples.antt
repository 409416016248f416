-- ===== src/Protocol/Examples.antt =====
-- Runs on concrete bytes, and the theorems at concrete inputs.
use pisaller.Base.{invalid_handshake, err, arith}
use pisaller.Base.Int.{pos}
use pisaller.Protocol.{read_handshake_request, write_smux_open_header}
use pisaller.Protocol.Framing.{open_header_no_handshake}
use pisaller.Stream.{write}
use pisaller.Base.{
  ℕ, ◌≡◌, refl, List, [], ◌∷◌, replicate, none, err, eof, unexpected_eof, bad_timeout, failure,
  arith,
}
use pisaller.Base.Int.{pos}
use pisaller.Stream.{Conn, read_full, write, refuse, accept}
use pisaller.Protocol.{
  read_handshake_request, write_smux_open_header, read_smux_open_header, read_udp_reply,
  write_udp_reply_unsized,
}

-- A connection on which `bytes` wait, and one on which nothing does.
abbrev incoming : List ℕ → Conn
incoming bytes = record {
  input = bytes;
  ending = eof;
  output = [];
  faults = [];
  read_deadline = none;
  write_deadline = none;
}

abbrev fresh : Conn
fresh = incoming []

abbrev uuid : List ℕ
uuid = replicate 16 7

abbrev host : List ℕ
host = 0x61 ∷ 0x3a ∷ 0x38 ∷ []

-- The second write fails after one byte.
cut_header :
    write_smux_open_header 2 3 host (record fresh { faults = accept ∷ refuse 1 (failure 4) ∷ [] })
    ≡ (err (failure 4), record fresh { output = 2 ∷ 3 ∷ 0 ∷ 3 ∷ 0x61 ∷ [] })
unfolding write_smux_open_header write
cut_header = refl

cut_read : (read_smux_open_header (incoming (2 ∷ 3 ∷ 0 ∷ 3 ∷ 0x61 ∷ []))).0 ≡ err unexpected_eof
unfolding read_smux_open_header read_full
cut_read = refl

no_timeout : (read_handshake_request 0 (pos 0) (incoming (0x10 ∷ uuid))).0 ≡ err bad_timeout
unfolding read_handshake_request
no_timeout = refl

-- The address of a reply without a length of its data is taken for two lengths.
unsized_reply :
    (read_udp_reply (incoming (write_udp_reply_unsized host (1 ∷ 2 ∷ []) fresh).1.output)).0
    ≡ err eof
unfolding write_udp_reply_unsized read_udp_reply read_full write
unsized_reply = refl

open_header_no_handshake_example :
    (read_handshake_request 6 (pos 10) (incoming (1 ∷ 0 ∷ 0 ∷ 0 ∷ 9 ∷ []))).0
    ≡ err invalid_handshake
unfolding write_smux_open_header write
open_header_no_handshake_example =
    open_header_no_handshake 1 0 6 [] (9 ∷ []) (pos 10) fresh (incoming (1 ∷ 0 ∷ 0 ∷ 0 ∷ 9 ∷ []))
      refl (λ e. omega arith) (omega arith) refl refl refl
