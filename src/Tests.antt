-- ===== src/Tests.antt =====
-- Runs of the model on concrete data, and the theorems at these data.
mod Servers
mod Totals
mod Codecs
mod Factories
mod NetScripts
mod BrokenFrames
mod Closing
mod Reading
mod Stopping
mod Wakeups
use mathlib.Core.Path.{subst}
use mathlib.Core.Option.{some-injective}
use python_json_socket.Prelude.{
  ℕ, ◌≡◌, ◌≢◌, refl, true, false, List, [], ◌∷◌, ◌++◌, Option, none, some, Text, codes, arith, All,
  text_eq, text_eq_iff, Bool-cases, inl, inr, take, drop, ◌==◌, ◌<◌, ◌^◌, if◌then◌else◌,
}
use python_json_socket.Framing.{header_of, checksum_of, frame_magic}
use python_json_socket.Framing.Bytes.{IsByte, be32, of_be32}
use python_json_socket.Framing.Crc.{crc32}
use python_json_socket.Framing.Header.{pack_header, unpack_header, unpack-pack}
use python_json_socket.Framing.Frame.{header_bytes}
use python_json_socket.Codec.{Codec, Value, null, IsLossless}
use python_json_socket.Os.{Recv, segment, takes, Sock, recv, send}
use python_json_socket.JsonSocket.{State, JsonSocket, ok, raise, framing, checksum_mismatch}
use python_json_socket.JsonSocket.Close.{close, close_connection}
use python_json_socket.JsonSocket.Close.Closed.{close_both, close_connection-listening}
use python_json_socket.JsonSocket.Timeouts.{set_accept_timeout}
use python_json_socket.JsonSocket.Write.{send_obj, send_loop}
use python_json_socket.JsonSocket.Write.Sound.{ObjOutcome, send_obj_outcomes}
use python_json_socket.JsonSocket.Read.Exact.{HasStream}
use python_json_socket.JsonSocket.Read.{read, read_loop}
use python_json_socket.JsonSocket.Message.{read_obj}
use python_json_socket.JsonSocket.Message.Sound.{MessageOutcome, read_obj_outcomes}
use python_json_socket.JsonServer.{accept_connection, accepted, init_server}
use python_json_socket.JsonServer.Synced.{
  IsSynced, server_timeouts, listening, set_all, timeout, recv_timeout,
}
use python_json_socket.JsonClient.{connect}
use python_json_socket.JsonClient.Connects.{ConnectOutcome, failures, connect_outcome}
use python_json_socket.Exchange.{send_all, read_all, IsSendable, exchange}

-- A codec of one value, `None`, in ASCII.
abbrev null_text : Text
null_text = codes "null"

abbrev dump_null : Value → Option Text
dump_null null = some null_text
dump_null _ = none

abbrev load_null : Text → Option Value
load_null t = if text_eq t null_text then some null else none

abbrev encode_null : Text → Option (List ℕ)
encode_null t = if text_eq t null_text then some null_text else none

abbrev pub null_codec : Codec
null_codec = record {
  dumps = dump_null;
  encode = encode_null;
  decode = encode_null;
  loads = load_null;
  is_decode_error = λ t. true;
}

decode_null : (t b : List ℕ) → encode_null t ≡ some b → encode_null b ≡ some t
unfolding text_eq
decode_null t b h = ground (arith, text_eq_iff t null_text, text_eq_iff b null_text)

encode_null-bytes : (t b : List ℕ) → encode_null t ≡ some b → All IsByte b
unfolding text_eq
encode_null-bytes t b h = elim (Bool-cases (text_eq t null_text)) [
  | inl yes_null ↦ subst (All IsByte) (some-injective _ _ (rw yes_null at h)) (omega arith)
  | inr other ↦ cc (rw other at h)
]

load_dumped : (v : Value) (t : Text) → dump_null v ≡ some t → load_null t ≡ some v
unfolding text_eq
load_dumped null t h = subst (λ u. load_null u ≡ some null) (some-injective _ _ h) refl
load_dumped _ t h = cc

pub null_codec-IsLossless : IsLossless null_codec
null_codec-IsLossless = record {
  decode-encode = decode_null;
  encode-bytes = encode_null-bytes;
  loads-dumps = load_dumped;
}

-- A client on socket 0 that is its connection too, with these segments to receive, and a `send`
-- that takes five bytes at first.
abbrev client_self : JsonSocket
client_self = record {
  socket = some 0;
  conn = some 0;
  timeout = some 2;
  accept_timeout = some 2;
  recv_timeout = some 2;
  address = codes "127.0.0.1";
  port = 5489;
  max_message_size = some 10485760;
  last_client_addr = none;
  is_server = false;
  is_listening = false;
  last_read_size = none;
  last_send_size = none;
}

abbrev pub socket_with : List Recv → Sock
socket_with inbound = record {
  is_open = true;
  timeout = some 2;
  inbound = inbound;
  outbound = takes 5 ∷ [];
  delivered = [];
}

abbrev pub client_with : List Recv → State
client_with inbound = record {
  self = client_self;
  os = λ _. socket_with inbound;
  next = 1;
  slept = 0;
}

-- The frame of `null`, in two segments, and the first byte of another.
abbrev pub null_frame : List ℕ
null_frame = b'J' ∷ b'S' ∷ b'N' ∷ b'1' ∷ 0 ∷ 0 ∷ 0 ∷ 4 ∷ 0x25 ∷ 0xCB ∷ 0xFC ∷ 0x4F ∷ null_text

abbrev pub two_segments : List Recv
two_segments = segment (take 7 null_frame) ∷ segment (drop 7 null_frame ++ b'J' ∷ []) ∷ []

null_header : header_bytes null_text ++ null_text ≡ null_frame
unfolding be32 checksum_of crc32
null_header = refl

read_null : (read_obj null_codec (client_with two_segments)).0 ≡ ok null
unfolding read_obj read read_loop recv unpack_header of_be32 text_eq checksum_of crc32
read_null = refl

-- A changed last byte is seen by the checksum.
read_changed :
    (read_obj null_codec (client_with (segment (take 15 null_frame ++ b'x' ∷ []) ∷ []))).0
    ≡ raise (framing checksum_mismatch)
unfolding read_obj read read_loop recv unpack_header of_be32 text_eq checksum_of crc32
read_changed = refl

send_null : ((send_obj null_codec null (client_with [])).1.os 0).delivered ≡ null_frame
unfolding send_obj send_loop send header_of pack_header be32 checksum_of crc32 text_eq
send_null = refl

connected_third : (connect (λ n. n == 3) (client_with [])).1.slept ≡ 6
unfolding connect
connected_third = refl

unfoldable pub null_IsSendable : IsSendable null_codec (some 10485760) (some 10485760) null
unfolding text_eq
null_IsSendable = record {
  text = null_text;
  payload = null_text;
  dumped = refl;
  encoded = refl;
  small = omega arith;
  fits_ours = omega arith;
  fits_theirs = omega arith;
}

exchange_example :
    ((after : State) × (send_all null_codec (null ∷ []) (client_with []) ≡ (ok tt, after))
      × ((after.os 0).delivered ≡ null_frame ++ []))
    × ((after : State) × (read_all null_codec 1 (client_with two_segments)
          ≡ (ok (null ∷ []), after))
        × HasStream 0 after (b'J' ∷ []))
unfolding null_IsSendable be32 checksum_of crc32
exchange_example =
    exchange null_codec null_codec-IsLossless (some 10485760) (some 10485760) 0 0 0 (null ∷ [])
      (null_IsSendable, tt) (client_with []) (client_with two_segments) (b'J' ∷ []) refl refl
      (record { is_conn = refl; is_open = refl; willing = tt }) refl
      (record { is_conn = refl; is_open = refl; stream = refl })

read_obj_outcomes_example :
    MessageOutcome null_codec 0
      (client_with two_segments)
      (null_frame ++ b'J' ∷ [])
      (read_obj null_codec (client_with two_segments))
read_obj_outcomes_example =
    read_obj_outcomes null_codec 0 (client_with two_segments) refl refl (null_frame ++ b'J' ∷ [])
      (record { is_conn = refl; is_open = refl; stream = refl })

send_obj_outcomes_example :
    ObjOutcome null_codec null 0 (client_with []) (send_obj null_codec null (client_with []))
send_obj_outcomes_example =
    send_obj_outcomes null_codec null 0 0 (client_with []) refl refl refl refl

connect_outcome_example :
    ConnectOutcome
      (client_with [])
      10
      (failures (λ n. n == 3) 1 10)
      (connect (λ n. n == 3) (client_with []))
connect_outcome_example = connect_outcome (λ n. n == 3) (client_with [])

server_timeouts_example : IsSynced 1 2 (
    set_all
      (timeout none ∷ recv_timeout (some 7) ∷ [])
      (accept_connection
        (accepted (codes "10.0.0.9", 4000) (socket_with []))
        (listening (codes "0.0.0.0") 5489 (some 2) none (some 3) (client_with []))).1)
unfolding init_server
server_timeouts_example =
    server_timeouts (codes "0.0.0.0") 5489 (some 2) none (some 3) (client_with [])
      (codes "10.0.0.9", 4000) (socket_with []) (timeout none ∷ recv_timeout (some 7) ∷ []) refl

-- A server that listens on socket 0 and has the connection 1.
abbrev pub server_state : State
server_state = record {
  self = record client_self { conn = some 1; is_server = true; is_listening = true };
  os = λ _. socket_with two_segments;
  next = 2;
  slept = 0;
}

close_both_example :
    (((close server_state).os 1).is_open ≡ false)
    × (((close server_state).os 0).is_open ≡ false)
    × ((close server_state).self ≡ record server_state.self { is_listening = false })
    × ((i : ℕ) → i ≢ 1 → i ≢ 0 → (close server_state).os i ≡ server_state.os i)
close_both_example = close_both 1 0 server_state refl refl

close_connection-listening_example : (close_connection server_state).os 0 ≡ server_state.os 0
close_connection-listening_example = close_connection-listening 0 server_state refl refl

unpack-pack_example :
    (pack_header frame_magic 4 0x25CBFC4F ≡ some (take 12 null_frame))
    × (4 < 2 ^ 32)
    × (0x25CBFC4F < 2 ^ 32)
unfolding unpack_header of_be32
unpack-pack_example = unpack-pack (take 12 null_frame) frame_magic 4 0x25CBFC4F (omega arith) refl
