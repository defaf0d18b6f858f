-- ===== src/NetClient/Sending/Rejected.antt =====
-- What a server makes of a frame that net_client.py has broken.
use mathlib.Core.Path.{subst}
use python_json_socket.Prelude.{
  text_eq, ℕ, ◌^◌, ◌<◌, ◌≡◌, refl, sym, ap, ◌∙◌, true, false, Bool-cases, inl, inr, List, ◌++◌,
  length, some, none, Text, codes, ==_refl, ==_iff, ◌==◌,
}
use python_json_socket.Framing.{frame_magic, frame_header_size, checksum_of}
use python_json_socket.Framing.Bytes.{be32}
use python_json_socket.Framing.Header.{unpack_header, unpack_fields}
use python_json_socket.Framing.Frame.{checksum_of-lt}
use python_json_socket.Framing.Flipped.{bit_xor-differs}
use python_json_socket.Codec.{Codec}
use python_json_socket.JsonSocket.{
  State, Result, ok, raise, Framing, framing, invalid_magic, checksum_mismatch, bind-ok, bind-raise,
  or_raise, struct_error, pure, ◌>>=◌, ◌>>◌,
}
use python_json_socket.JsonSocket
use python_json_socket.JsonSocket.Close.{close_connection}
use python_json_socket.JsonSocket.Read.{read}
use python_json_socket.JsonSocket.Read.Exact.{HasStream, Returns, read-Returns}
use python_json_socket.JsonSocket.Message.{
  check_header, read_header, read_payload, decode_payload, read_obj,
}
use python_json_socket.JsonSocket.Message.Framed.{Fits, check_header-Fits}
use python_json_socket.NetClient.Sending.{
  Corruption, bad_crc, bad_header, invalid_json, corrupt_raw, corrupt_checksum, corrupt_magic,
}
use python_json_socket.NetClient.Sending.Handed.{corrupt_checksum-lt, corrupt_bytes}

-- The error that the mode is named after.
abbrev pub error_of : Corruption → Framing
error_of bad_crc = checksum_mismatch
error_of bad_header = invalid_magic
error_of invalid_json = JsonSocket.invalid_json

-- The payload of `invalid_json` is UTF-8, and no JSON.
pub record IsBrace (c : Codec) : Type 0 where
  pub text : Text
  pub decoded : c.decode (codes "{") ≡ some text
  pub loaded : c.loads text ≡ none
  pub refused : c.is_decode_error text ≡ true

length-corrupt_bytes :
    (mode : Corruption) (raw : List ℕ) → length (corrupt_bytes mode raw) ≡ frame_header_size
unfolding be32
length-corrupt_bytes bad_crc raw = refl
length-corrupt_bytes bad_header raw = refl
length-corrupt_bytes invalid_json raw = refl

unpack-corrupt_bytes :
    (mode : Corruption) (raw : List ℕ)
    → length raw < 2 ^ 32
    → unpack_header (corrupt_bytes mode raw)
      ≡ some (corrupt_magic mode, length raw, corrupt_checksum mode raw)
unpack-corrupt_bytes bad_crc raw small =
    unpack_fields _ _ _ _ _ _ small (corrupt_checksum-lt bad_crc raw)
unpack-corrupt_bytes bad_header raw small = unpack_fields _ _ _ _ _ _ small (checksum_of-lt raw)
unpack-corrupt_bytes invalid_json raw small = unpack_fields _ _ _ _ _ _ small (checksum_of-lt raw)

-- The read ends with the error of the mode, and closes the connection.
pub record Rejects (c : Codec) (e : Framing) (h : ℕ) (s : State) : Type 0 where
  pub before : State
  pub result : read_obj c s ≡ (raise (framing e), close_connection before)
  pub same_conn : before.self.conn ≡ s.self.conn
  pub same_main : before.self.socket ≡ s.self.socket
  pub same_server : before.self.is_server ≡ s.self.is_server

brace_refused :
    (c : Codec) (B : IsBrace c) (t : State)
    → decode_payload c (checksum_of (codes "{")) (codes "{") t
      ≡ (raise (framing JsonSocket.invalid_json), close_connection t)
brace_refused c B t = rw (==_refl (checksum_of (codes "{")), B.decoded, B.loaded, B.refused) refl

module _ (c : Codec) (B : IsBrace c) (raw rest : List ℕ) (h : ℕ) (s : State)
    (small : length raw < 2 ^ 32) (fits : Fits s.self.max_message_size (length raw)) where
  noted : State → State
  noted t = record t { self = record t.self { last_read_size = some (length raw) } }

  -- The header of each mode.
  module _ (mode : Corruption)
      (r : Returns (corrupt_bytes mode raw) (raw ++ rest) h frame_header_size true s) where
    header_read :
        read_header s
        ≡ check_header (corrupt_magic mode, length raw, corrupt_checksum mode raw) r.after
    unfolding read_header
    header_read =
        bind-ok (read frame_header_size true)
          (λ header. or_raise struct_error (unpack_header header) >>= check_header) s r.after
          (corrupt_bytes mode raw) r.result
        ∙ bind-ok (or_raise struct_error (unpack_header (corrupt_bytes mode raw))) check_header
            r.after r.after (corrupt_magic mode, length raw, corrupt_checksum mode raw)
            (ap (λ o. or_raise struct_error o r.after) (unpack-corrupt_bytes mode raw small))

    -- The payload behind a header that is let through.
    payload_Rejects :
        corrupt_magic mode ≡ frame_magic
        → ((t : State)
            → decode_payload c (corrupt_checksum mode raw) raw t
              ≡ (raise (framing (error_of mode)), close_connection t))
        → Rejects c (error_of mode) h s
    unfolding read_obj noted
    payload_Rejects good decode =
        let left = r.has_rest in
        let second =
          read-Returns raw rest h (length raw) false (noted r.after) refl
            (record { is_conn = left.is_conn; is_open = left.is_open; stream = left.stream }) in
        let sum = corrupt_checksum mode raw in
        let checked =
          ap (λ m. check_header (m, length raw, sum) r.after) good
          ∙ check_header-Fits (length raw) sum r.after (rw r.same_self fits) in
        record {
          before = second.after;
          result =
              bind-ok read_header (read_payload c) s r.after (length raw, sum)
                (header_read ∙ checked)
              ∙ bind-ok (read (length raw) false) (decode_payload c sum) (noted r.after)
                  second.after raw second.result
              ∙ decode second.after;
          same_conn =
              ap (λ (o : JsonSocket.JsonSocket). o.conn) second.same_self
              ∙ ap (λ (o : JsonSocket.JsonSocket). o.conn) r.same_self;
          same_main =
              ap (λ (o : JsonSocket.JsonSocket). o.socket) second.same_self
              ∙ ap (λ (o : JsonSocket.JsonSocket). o.socket) r.same_self;
          same_server =
              ap (λ (o : JsonSocket.JsonSocket). o.is_server) second.same_self
              ∙ ap (λ (o : JsonSocket.JsonSocket). o.is_server) r.same_self;
        }

    -- A header that is refused ends the read before the payload.
    header_Rejects :
        check_header (corrupt_magic mode, length raw, corrupt_checksum mode raw) r.after
          ≡ (raise (framing (error_of mode)), close_connection r.after)
        → Rejects c (error_of mode) h s
    unfolding read_obj
    header_Rejects refuses = record {
      before = r.after;
      result =
          bind-raise read_header (read_payload c) s (close_connection r.after)
            (framing (error_of mode)) (header_read ∙ refuses);
      same_conn = ap (λ (o : JsonSocket.JsonSocket). o.conn) r.same_self;
      same_main = ap (λ (o : JsonSocket.JsonSocket). o.socket) r.same_self;
      same_server = ap (λ (o : JsonSocket.JsonSocket). o.is_server) r.same_self;
    }

  flipped : (checksum_of raw == corrupt_checksum bad_crc raw) ≡ false
  flipped = elim (Bool-cases (checksum_of raw == corrupt_checksum bad_crc raw)) [
    | inl same ↦
        absurd
          ((bit_xor-differs (checksum_of raw) (checksum_of-lt raw)).0 (sym ((==_iff _ _).0 same)))
    | inr other ↦ other
  ]

  -- Each mode, with a payload that it sends.
  mode_Rejects :
      (mode : Corruption)
      → corrupt_raw mode raw ≡ raw
      → Returns (corrupt_bytes mode raw) (raw ++ rest) h frame_header_size true s
      → Rejects c (error_of mode) h s
  unfolding text_eq
  mode_Rejects bad_crc same r = payload_Rejects bad_crc r refl (λ t. rw flipped refl)
  mode_Rejects bad_header same r = header_Rejects bad_header r refl
  mode_Rejects invalid_json same r = payload_Rejects invalid_json r refl (λ t.
      subst
        (λ p.
          decode_payload c (checksum_of p) p t
          ≡ (raise (framing JsonSocket.invalid_json), close_connection t))
        same (brace_refused c B t))

  pub corrupt-Rejects :
      (mode : Corruption)
      → corrupt_raw mode raw ≡ raw
      → HasStream h s (corrupt_bytes mode raw ++ (raw ++ rest))
      → Rejects c (error_of mode) h s
  corrupt-Rejects mode same st = mode_Rejects mode same (
      read-Returns (corrupt_bytes mode raw) (raw ++ rest) h frame_header_size true s
        (length-corrupt_bytes mode raw) st)
