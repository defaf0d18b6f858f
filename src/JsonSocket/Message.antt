-- ===== src/JsonSocket/Message.antt =====
-- `_read_header` and `read_obj`.
pub mod Bounded
pub mod Framed
pub mod Outcome
pub mod Sound
pub mod Spec
use python_json_socket.Prelude.{
  ℕ, Bool, true, false, List, Option, none, some, ltb, ◌==◌, text_eq, Text, if◌then◌else◌,
}
use python_json_socket.Framing.{frame_magic, frame_header_size, checksum_of}
use python_json_socket.Framing.Header.{unpack_header}
use python_json_socket.Codec.{Codec, Value}
use python_json_socket.JsonSocket.{
  State, M, Result, ok, raise, struct_error, Framing, framing, invalid_magic, oversize,
  checksum_mismatch, invalid_utf8, invalid_json, pure, or_raise, assign, throw, loads_error, ◌>>=◌,
  ◌>>◌,
}
use python_json_socket.JsonSocket.Close.{close_connection}
use python_json_socket.JsonSocket.Read.{read}

-- `self._close_connection(); raise FramingError(...)`
abbrev pub reject : {A : Type 0} → Framing → M A
reject e s = (raise (framing e), close_connection s)

-- `self._max_message_size is not None and size > self._max_message_size`
abbrev pub check_limit : Option ℕ → ℕ → M (Unit {0})
check_limit none size s = (ok tt, s)
check_limit (some limit) size s =
    if ltb limit size then reject (oversize size limit) s else (ok tt, s)

abbrev pub check_read_size : ℕ → M (Unit {0})
check_read_size size s = check_limit s.self.max_message_size size s

abbrev pub check_header : List ℕ × ℕ × ℕ → M (ℕ × ℕ)
check_header (magic, size, checksum) =
    if text_eq magic frame_magic
    then (check_read_size size >> pure (size, checksum))
    else reject invalid_magic

unfoldable pub read_header : M (ℕ × ℕ)
read_header = do
  header ← read frame_header_size true
  fields ← or_raise struct_error (unpack_header header)
  check_header fields

abbrev pub or_reject : {A : Type 0} → Framing → Option A → M A
or_reject e none = reject e
or_reject e (some a) = pure a

-- A `JSONDecodeError` is caught, any other exception of `json.loads` is not.
abbrev pub or_refuse : Option Value → Bool → M Value
or_refuse (some v) is_decode_error = pure v
or_refuse none true = reject invalid_json
or_refuse none false = throw loads_error

-- The checks on a payload that has been read, and the two decodings.
abbrev pub decode_payload : Codec → ℕ → List ℕ → M Value
decode_payload c checksum payload =
    if checksum_of payload == checksum
    then (do
      decoded ← or_reject invalid_utf8 (c.decode payload)
      or_refuse (c.loads decoded) (c.is_decode_error decoded))
    else reject checksum_mismatch

abbrev pub read_payload : Codec → ℕ × ℕ → M Value
read_payload c (size, checksum) = do
  assign (λ self. record self { last_read_size = some size })
  payload ← read size false
  decode_payload c checksum payload

unfoldable pub read_obj : Codec → M Value
unfolding read_header
read_obj c = read_header >>= read_payload c
