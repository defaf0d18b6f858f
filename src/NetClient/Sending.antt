-- ===== src/NetClient/Sending.antt =====
-- scripts/net_client.py: sending a payload and comparing the response, and the two ways of sending
-- one that is broken on purpose. `conn.sendall` hands over everything or raises an `OSError`.
pub mod Counted
pub mod Expected
pub mod Handed
pub mod Rejected
pub mod Refused
pub mod Partial
use python_json_socket.Prelude.{
  ℕ, zero, suc, ◌+◌, ◌/◌, ◌≡◌, Bool, true, false, ◌&&◌, List, [], ◌∷◌, Option, none, some, Text,
  codes, text_eq, length, take, ltb, leb, bit_xor, if◌then◌else◌,
}
use python_json_socket.Framing.{frame_magic, checksum_of}
use python_json_socket.Framing.Header.{pack_header}
use python_json_socket.Codec.{Codec, Value, str}
use python_json_socket.JsonSocket.{
  State, M, Result, ok, raise, attribute_error, os_error, type_error, encode_error, struct_error,
  no_fuel, unexpected, pure, throw, or_raise, put_sock, ◌>>=◌, ◌>>◌,
}
use python_json_socket.JsonSocket.Write.{WriteExit, all_sent, refused, cut_off, send_loop, send_obj}
use python_json_socket.JsonSocket.Message.{read_obj}
use python_json_socket.NetClient.{extract_response_data}

-- `echoed != expected_data` is false for the same text alone.
abbrev pub is_text : Text → Value → Bool
is_text expected (str s) = text_eq s expected
is_text expected other = false

abbrev pub check_response : Text → Value → M (Option Value)
check_response expected response =
    if is_text expected (extract_response_data response)
    then pure (some response)
    else throw unexpected

-- `_send_and_expect`
unfoldable pub send_and_expect : Codec → Value → Text → Bool → M (Option Value)
unfolding send_obj read_obj extract_response_data text_eq
send_and_expect c payload expected false = send_obj c payload >> pure none
send_and_expect c payload expected true =
    send_obj c payload >> (read_obj c >>= check_response expected)

abbrev finish_sendall : WriteExit → State → Result (Unit {0}) × State
finish_sendall all_sent s = (ok tt, s)
finish_sendall refused s = (raise os_error, s)
finish_sendall cut_off s = (raise no_fuel, s)

abbrev pub sendall_on : Option ℕ → List ℕ → M (Unit {0})
sendall_on none msg s = (raise attribute_error, s)
sendall_on (some h) msg s =
    let (exit, sock) = send_loop (suc (length msg)) msg 0 (s.os h) in
    finish_sendall exit (put_sock h sock s)

-- `conn.sendall(msg)` with `conn = client.conn`
unfoldable pub sendall : List ℕ → M (Unit {0})
unfolding send_loop
sendall msg s = sendall_on s.self.conn msg s

-- The modes that `_send_corrupt_payload` chooses from.
pub data Corruption : Type 0 where
  bad_crc bad_header invalid_json : Corruption

-- `json.dumps(payload, ensure_ascii=False).encode("utf-8")`
abbrev pub raw_of : Codec → Value → M (List ℕ)
raw_of c payload =
    or_raise type_error (c.dumps payload) >>= λ text. or_raise encode_error (c.encode text)

abbrev pub corrupt_raw : Corruption → List ℕ → List ℕ
corrupt_raw invalid_json raw = codes "{"
corrupt_raw other raw = raw

abbrev pub corrupt_checksum : Corruption → List ℕ → ℕ
corrupt_checksum bad_crc raw = bit_xor (checksum_of raw) 0xFFFFFFFF
corrupt_checksum other raw = checksum_of raw

abbrev pub corrupt_magic : Corruption → List ℕ
corrupt_magic bad_header = codes "BAD0"
corrupt_magic other = frame_magic

-- `none` is `struct.error`.
unfoldable pub corrupt_header : Corruption → List ℕ → Option (List ℕ)
unfolding pack_header checksum_of
corrupt_header mode raw = pack_header (corrupt_magic mode) (length raw) (corrupt_checksum mode raw)

abbrev pub send_corrupt_raw : Corruption → List ℕ → M (Unit {0})
send_corrupt_raw mode raw =
    or_raise struct_error (corrupt_header mode raw) >>= λ header. sendall header >> sendall raw

unfoldable pub send_corrupt_payload : Codec → Corruption → Value → M (Unit {0})
unfolding corrupt_header sendall
send_corrupt_payload c mode payload =
    raw_of c payload >>= λ raw. send_corrupt_raw mode (corrupt_raw mode raw)

-- `chance` is what `secrets.randbelow(1000)` gives, and 50 is `int(ERROR_RATE * 1000)`. Whether the
-- payload was sent as it is.
unfoldable pub send_maybe_with_error : Codec → ℕ → Corruption → Value → Text → Bool → Bool → M Bool
unfolding send_corrupt_payload send_and_expect
send_maybe_with_error c chance mode payload expected enable_errors read_response =
    if enable_errors && ltb chance 50
    then (send_corrupt_payload c mode payload >> pure false)
    else (send_and_expect c payload expected read_response >>= λ _. pure true)

-- `max(1, len(raw) // 2)`
abbrev pub cutoff : List ℕ → ℕ
cutoff raw = if leb 1 (length raw / 2) then length raw / 2 else 1

unfoldable pub send_partial_payload : Codec → Value → M (Unit {0})
unfolding sendall pack_header checksum_of
send_partial_payload c payload = raw_of c payload >>= λ raw.
    or_raise struct_error (pack_header frame_magic (length raw) (checksum_of raw)) >>= λ header.
    sendall header >> sendall (take (cutoff raw) raw)
