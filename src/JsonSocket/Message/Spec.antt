-- ===== src/JsonSocket/Message/Spec.antt =====
-- What `read_obj` promises, as a function of the bytes to receive: the first message and the bytes
-- behind it.
pub mod Messages
pub mod Refined
use python_json_socket.Prelude.{
  ℕ, ◌≤◌, ◌≡◌, ◌≢◌, refl, sym, ap, ◌∙◌, Bool, true, false, ◌&&◌, List, [], ◌∷◌, ◌++◌, Option, none,
  some, Text, text_eq, length, take, drop, leb, ◌==◌, if◌then◌else◌,
}
use python_json_socket.Framing.{frame_magic, frame_header_size, checksum_of}
use python_json_socket.Framing.Header.{unpack_header}
use python_json_socket.Codec.{Codec, Value}

abbrev fits_limit : Option ℕ → ℕ → Bool
fits_limit none size = true
fits_limit (some limit) size = leb size limit

abbrev parsed : Option Value → List ℕ → Option (Value × List ℕ)
parsed none rest = none
parsed (some v) rest = some (v, rest)

abbrev loaded : Codec → Option Text → List ℕ → Option (Value × List ℕ)
loaded c none rest = none
loaded c (some text) rest = parsed (c.loads text) rest

-- The payload of a checksum, and what is behind it.
abbrev with_payload : Codec → ℕ → List ℕ → List ℕ → Option (Value × List ℕ)
with_payload c checksum payload rest =
    if checksum_of payload == checksum then loaded c (c.decode payload) rest else none

abbrev with_header : Codec → Option ℕ → Option (List ℕ × ℕ × ℕ) → List ℕ → Option (Value × List ℕ)
with_header c limit none rest = none
with_header c limit (some (magic, size, checksum)) rest =
    if text_eq magic frame_magic && fits_limit limit size && leb size (length rest)
    then with_payload c checksum (take size rest) (drop size rest)
    else none

-- Twelve bytes that unpack to the magic, a length within the limit and a checksum, and behind them
-- as many bytes of this checksum that decode to a value.
unfoldable pub first_message : Codec → Option ℕ → List ℕ → Option (Value × List ℕ)
unfolding unpack_header text_eq checksum_of
first_message c limit bytes =
    with_header c limit (unpack_header (take frame_header_size bytes))
      (drop frame_header_size bytes)
