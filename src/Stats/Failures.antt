-- ===== src/Stats/Failures.antt =====
-- `_framing_failure_kind` and `_note_framing_failure`, with the texts that the errors carry.
pub mod Kinds
pub mod Noted
use python_json_socket.Prelude.{List, [], ◌∷◌, ◌++◌, Text, codes, contains, if◌then◌else◌}
use python_json_socket.JsonSocket.{
  Framing, read_timeout, invalid_magic, checksum_mismatch, invalid_utf8, invalid_json, oversize,
}
use python_json_socket.Stats.{Tracker, note_failure}
use python_json_socket.Stats.Identity.{decimal}

-- `str(error)`
unfoldable pub message : Framing → Text
unfolding decimal
message read_timeout = codes "socket read timeout during message"
message invalid_magic = codes "invalid message header magic"
message (oversize size limit) =
    codes "message length "
    ++ (decimal size ++ (codes " exceeds max_message_size " ++ decimal limit))
message checksum_mismatch = codes "message checksum mismatch"
message invalid_utf8 = codes "invalid UTF-8 payload"
message invalid_json = codes "invalid JSON payload"

-- The texts that are looked for, with their kinds, in this order.
abbrev pub patterns : List (Text × Text)
patterns =
    (codes "invalid message header magic", codes "bad_header")
    ∷ (codes "checksum mismatch", codes "bad_crc")
    ∷ (codes "exceeds max_message_size", codes "oversize")
    ∷ (codes "invalid UTF-8 payload", codes "invalid_utf8")
    ∷ (codes "invalid JSON payload", codes "invalid_json")
    ∷ (codes "socket read timeout", codes "timeout")
    ∷ []

abbrev pub first_match : List (Text × Text) → Text → Text
first_match [] msg = codes "framing"
first_match ((pattern, kind) ∷ rest) msg =
    if contains pattern msg then kind else first_match rest msg

unfoldable pub framing_failure_kind : Text → Text
unfolding contains
framing_failure_kind msg = first_match patterns msg

unfoldable pub note_framing_failure : Framing → Tracker → Tracker
unfolding framing_failure_kind message note_failure
note_framing_failure error t = note_failure (framing_failure_kind (message error)) t
