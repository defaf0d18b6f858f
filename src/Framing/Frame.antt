-- ===== src/Framing/Frame.antt =====
-- The header that goes before a payload: when there is one, and that it unpacks to the length and
-- the checksum of the payload.
use python_json_socket.Prelude.{
  ℕ, ◌^◌, ◌≤◌, ◌<◌, ◌≡◌, refl, List, ◌++◌, length, none, some, arith, le→ltb_false,
}
use python_json_socket.Framing.{frame_magic, frame_header_size, checksum_of, header_of}
use python_json_socket.Framing.Bytes.{be32}
use python_json_socket.Framing.Header.{
  field_4s, pack_header, unpack_header, pack_header_fits, unpack_fields,
}

pub checksum_of-lt : (payload : List ℕ) → checksum_of payload < 2 ^ 32
unfolding checksum_of
checksum_of-lt payload = omega arith

abbrev pub header_bytes : List ℕ → List ℕ
header_bytes payload = field_4s frame_magic ++ be32 (length payload) ++ be32 (checksum_of payload)

pub header_of_fits :
    (payload : List ℕ) → length payload < 2 ^ 32 → header_of payload ≡ some (header_bytes payload)
unfolding header_of
header_of_fits payload h = pack_header_fits frame_magic _ _ h (checksum_of-lt payload)

pub header_of_too_long : (payload : List ℕ) → 2 ^ 32 ≤ length payload → header_of payload ≡ none
unfolding header_of pack_header
header_of_too_long payload h = rw (le→ltb_false (length payload) (2 ^ 32) h)

pub length-header_bytes : (payload : List ℕ) → length (header_bytes payload) ≡ frame_header_size
unfolding be32
length-header_bytes payload = refl

-- The receiver unpacks the magic, the length and the checksum that the sender computed.
pub unpack-header_bytes :
    (payload : List ℕ)
    → length payload < 2 ^ 32
    → unpack_header (header_bytes payload) ≡ some (frame_magic, length payload, checksum_of payload)
unpack-header_bytes payload h = unpack_fields _ _ _ _ _ _ h (checksum_of-lt payload)
