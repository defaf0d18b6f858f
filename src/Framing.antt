-- ===== src/Framing.antt =====
-- jsocket/jsocket_base.py: the framing constants, and what `struct` and `zlib` do with them.
-- A frame is FRAME_MAGIC, the big-endian length, the big-endian CRC-32, and the payload.
pub mod Bytes
pub mod Crc
pub mod Header
pub mod Frame
pub mod Flipped
use python_json_socket.Prelude.{ℕ, ◌*◌, ◌%◌, ◌^◌, List, ◌++◌, length, codes, Option, none, some}
use Crc.{crc32}
use Header.{pack_header}

-- `FRAME_MAGIC = b"JSN1"`
abbrev pub frame_magic : List ℕ
frame_magic = codes "JSN1"

-- `struct.calcsize("!4sII")`
abbrev pub frame_header_size : ℕ
frame_header_size = 12

-- `10 * 1024 * 1024`
abbrev pub default_max_message_size : ℕ
default_max_message_size = 10 * 1024 * 1024

-- `zlib.crc32(payload) & 0xFFFFFFFF`
unfoldable pub checksum_of : List ℕ → ℕ
checksum_of payload = crc32 payload % 2 ^ 32

-- The header that `send_obj` sends before the payload; `none` is `struct.error`.
unfoldable pub header_of : List ℕ → Option (List ℕ)
header_of payload = pack_header frame_magic (length payload) (checksum_of payload)
