-- ===== src/JsonSocket/Message/Sound.antt =====
-- `read_obj` on an open connection, whatever arrives: what it returns was framed on the wire, and
-- every error has a definite effect on the connection.
use python_json_socket.Prelude.{
  ℕ, ◌≡◌, refl, ap, ◌∙◌, true, false, List, [], ◌++◌, Bool, Option, none, some, Text, length, ◌==◌,
  ==_iff, Bool-cases, inl, inr, ◌&&◌, same_ref,
}
use python_json_socket.Framing.{frame_magic, checksum_of}
use python_json_socket.Framing.Header.{unpack_header}
use python_json_socket.Codec.{Codec, Value}
use python_json_socket.Os.Stream.{pending}
use python_json_socket.JsonSocket.{
  State, JsonSocket, Result, ok, raise, Exc, broken, socket_timeout, framing, read_timeout,
  invalid_utf8, loads_error, continue, ◌>>=◌,
}
use python_json_socket.JsonSocket.Close.{close_connection}
use python_json_socket.JsonSocket.Close.Closed.{IsClosable, close_connection-closed}
use python_json_socket.JsonSocket.Read.{read}
use python_json_socket.JsonSocket.Read.Exact.{HasStream}
use python_json_socket.JsonSocket.Read.Outcome.{ReadOutcome, Keeps, read-ReadOutcome}
use python_json_socket.JsonSocket.Message.{
  read_header, read_payload, decode_payload, or_reject, or_refuse, read_obj,
}
use python_json_socket.JsonSocket.Message.Framed.{Fits}
use python_json_socket.JsonSocket.Message.Outcome.{HeaderOutcome, read_header-HeaderOutcome}

-- The bytes begin with a well-formed frame of `v`, and `rest` follows it.
pub record IsMessage (c : Codec) (limit : Option ℕ) (bytes : List ℕ) (v : Value) (rest : List ℕ)
    : Type 0 where
  pub header : List ℕ
  pub payload : List ℕ
  pub text : Text
  pub split : bytes ≡ header ++ (payload ++ rest)
  pub unpacked : unpack_header header ≡ some (frame_magic, length payload, checksum_of payload)
  pub fits : Fits limit (length payload)
  pub decoded : c.decode payload ≡ some text
  pub loaded : c.loads text ≡ some v

-- The bytes begin with a well-formed frame of a text that `json.loads` refuses, not by a
-- `JSONDecodeError`.
pub record IsUnloadable (c : Codec) (limit : Option ℕ) (bytes rest : List ℕ) : Type 0 where
  pub header : List ℕ
  pub payload : List ℕ
  pub text : Text
  pub split : bytes ≡ header ++ (payload ++ rest)
  pub unpacked : unpack_header header ≡ some (frame_magic, length payload, checksum_of payload)
  pub fits : Fits limit (length payload)
  pub decoded : c.decode payload ≡ some text
  pub unloaded : c.loads text ≡ none
  pub other_error : c.is_decode_error text ≡ false

-- The outcomes of `read_obj`.
abbrev pub MessageOutcome : Codec → ℕ → State → List ℕ → Result Value × State → Type 0
MessageOutcome c h s bytes (ok v, after) =
    IsMessage c s.self.max_message_size bytes v (pending (after.os h).inbound)
    × ((after.os h).is_open ≡ true)
MessageOutcome c h s bytes (raise socket_timeout, after) = (bytes ≡ []) × Keeps h s after
MessageOutcome c h s bytes (raise Exc.os_error, after) = (after.os h).is_open ≡ true
MessageOutcome c h s bytes (raise broken, after) = (after.os h).is_open ≡ false
MessageOutcome c h s bytes (raise (framing e), after) = (after.os h).is_open ≡ false
MessageOutcome c h s bytes (raise loads_error, after) =
    IsUnloadable c s.self.max_message_size bytes (pending (after.os h).inbound)
    × ((after.os h).is_open ≡ true)
MessageOutcome c h s bytes (raise other, after) = ⊥

module _ (c : Codec) (h : ℕ) (s u : State) (conn : u.self.conn ≡ some h) (closable : IsClosable u)
    (bytes header : List ℕ) (size checksum : ℕ)
    (unpacked : unpack_header header ≡ some (frame_magic, size, checksum))
    (fits : Fits s.self.max_message_size size) where
  module _ (payload : List ℕ) (t : State) (k : Keeps h u t) (long : length payload ≡ size)
      (split : bytes ≡ header ++ (payload ++ pending (t.os h).inbound)) where
    rejected : ((close_connection t).os h).is_open ≡ false
    rejected =
        close_connection-closed h t (ap (λ (o : JsonSocket). o.conn) k.same_self ∙ conn)
          (ap (λ (o : JsonSocket). o.is_server && same_ref o.conn o.socket) k.same_self ∙ closable)

    loaded_as :
        (text : Text) (o : Option Value) (syntax : Bool)
        → checksum_of payload ≡ checksum
        → c.decode payload ≡ some text
        → c.loads text ≡ o
        → c.is_decode_error text ≡ syntax
        → MessageOutcome c h s bytes (or_refuse o syntax t)
    loaded_as text none true good d l e = rejected
    loaded_as text none false good d l e = (
      record {
        header = header;
        payload = payload;
        text = text;
        split = split;
        unpacked = rw (long, good) unpacked;
        fits = rw long fits;
        decoded = d;
        unloaded = l;
        other_error = e;
      },
      k.still_open,
    )
    loaded_as text (some v) syntax good d l e = (
      record {
        header = header;
        payload = payload;
        text = text;
        split = split;
        unpacked = rw (long, good) unpacked;
        fits = rw long fits;
        decoded = d;
        loaded = l;
      },
      k.still_open,
    )

    decoded_as :
        (o : Option Text)
        → checksum_of payload ≡ checksum
        → c.decode payload ≡ o
        → MessageOutcome c h s bytes (
            (or_reject invalid_utf8 o >>= λ text. or_refuse (c.loads text) (c.is_decode_error text))
              t)
    decoded_as none good d = rejected
    decoded_as (some text) good d =
        loaded_as text (c.loads text) (c.is_decode_error text) good d refl refl

    payload_decoded : MessageOutcome c h s bytes (decode_payload c checksum payload t)
    payload_decoded = elim (Bool-cases (checksum_of payload == checksum)) [
      | inl same ↦ rw same (decoded_as (c.decode payload) ((==_iff _ _).0 same) refl)
      | inr differ ↦ rw differ rejected
    ]

  payload_read :
      (left : List ℕ) (r : Result (List ℕ) × State)
      → bytes ≡ header ++ left
      → ReadOutcome size false h u left r
      → MessageOutcome c h s bytes (continue r.0 (decode_payload c checksum) r.1)
  payload_read left (ok payload, t) e (long, split, k) =
      payload_decoded payload t k long (e ∙ ap (λ l. header ++ l) split)
  payload_read left (raise socket_timeout, t) e (allowed, o, k) = cc
  payload_read left (raise Exc.os_error, t) e (k, short) = k.still_open
  payload_read left (raise broken, t) e (k, short) = k.is_shut
  payload_read left (raise (framing read_timeout), t) e (k, short) = k.is_shut
  payload_read left (raise other, t) e o = absurd o

module _ (c : Codec) (h : ℕ) (s : State) (conn : s.self.conn ≡ some h)
    (closable : IsClosable s) where
  noted : ℕ → State → State
  noted size u = record u { self = record u.self { last_read_size = some size } }

  header_checked :
      (bytes : List ℕ) (r : Result (ℕ × ℕ) × State)
      → HeaderOutcome h s bytes r
      → MessageOutcome c h s bytes (continue r.0 (read_payload c) r.1)
  unfolding noted
  header_checked bytes (ok (size, checksum), u) (header, unpacked, fits, split, k) =
      let conn' : u.self.conn ≡ some h = ap (λ (o : JsonSocket). o.conn) k.same_self ∙ conn in
      let closable' : IsClosable u =
        ap (λ (o : JsonSocket). o.is_server && same_ref o.conn o.socket) k.same_self ∙ closable in
      payload_read c h s (noted size u) conn' closable' bytes header size checksum unpacked fits
        (pending (u.os h).inbound) (read size false (noted size u)) split
        (read-ReadOutcome h (noted size u) conn' closable' size false (pending (u.os h).inbound)
          (record { is_conn = conn'; is_open = k.still_open; stream = refl }))
  header_checked bytes (raise socket_timeout, t) o = o
  header_checked bytes (raise Exc.os_error, t) o = o.still_open
  header_checked bytes (raise broken, t) o = o.is_shut
  header_checked bytes (raise (framing e), t) o = o.is_shut
  header_checked bytes (raise other, t) o = absurd o

  -- On an open connection `read_obj` returns a value only where the bytes to receive begin with a
  -- header of the right magic, a length within the limit, and a payload of that length and
  -- checksum that decodes to the value; the bytes behind the frame stay. A `socket.timeout` means
  -- that no byte was there, and keeps the connection and the object. The
  -- `RuntimeError` of a broken connection and `FramingError` close the connection, and an `OSError`
  -- leaves it open. The only other exception is one of `json.loads` that is no `JSONDecodeError`, on
  -- a well-formed frame; the frame is then off the connection, which stays open.
  pub read_obj_outcomes :
      (bytes : List ℕ) → HasStream h s bytes → MessageOutcome c h s bytes (read_obj c s)
  unfolding read_obj
  read_obj_outcomes bytes st =
      header_checked bytes (read_header s) (read_header-HeaderOutcome h s conn closable bytes st)
