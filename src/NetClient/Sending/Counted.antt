-- ===== src/NetClient/Sending/Counted.antt =====
-- A frame that net_client.py has broken is counted by the server under the name of its mode.
use mathlib.Core.Path.{subst}
use python_json_socket.Stats.{ClientStats}
use python_json_socket.Stats.Failures.Noted.{IsActive, CountsOne}
use python_json_socket.Prelude.{
  append_assoc, ℕ, ◌^◌, ◌<◌, ◌≡◌, refl, ap, ◌∙◌, false, List, ◌++◌, length, some, Text, codes,
}
use python_json_socket.Codec.{Codec, Value}
use python_json_socket.JsonSocket.{State, Result, ok}
use python_json_socket.JsonSocket.Close.Closed.{IsClosable}
use python_json_socket.JsonSocket.Read.Exact.{HasStream}
use python_json_socket.JsonSocket.Message.Framed.{Fits}
use python_json_socket.JsonSocket.Write.Framed.{CanSend}
use python_json_socket.Stats.Failures.Kinds.{kind_of}
use python_json_socket.Serving.{Server, Turn, serve_turn}
use python_json_socket.NetClient.Sending.Refused.{refused_turn}
use python_json_socket.NetClient.Sending.{
  Corruption, bad_crc, bad_header, invalid_json, corrupt_raw, send_corrupt_payload,
}
use python_json_socket.NetClient.Sending.Handed.{corrupt_bytes, send_corrupt_payload-HandsOver}
use python_json_socket.NetClient.Sending.Rejected.{error_of, IsBrace, corrupt-Rejects}

corrupt_raw_idem :
    (mode : Corruption) (raw : List ℕ)
    → corrupt_raw mode (corrupt_raw mode raw) ≡ corrupt_raw mode raw
corrupt_raw_idem bad_crc raw = refl
corrupt_raw_idem bad_header raw = refl
corrupt_raw_idem invalid_json raw = refl

-- The name of the mode, as it stands in the source.
abbrev pub name_of : Corruption → Text
name_of bad_crc = codes "bad_crc"
name_of bad_header = codes "bad_header"
name_of invalid_json = codes "invalid_json"

kind_of-error_of : (mode : Corruption) → kind_of (error_of mode) ≡ name_of mode
kind_of-error_of bad_crc = refl
kind_of-error_of bad_header = refl
kind_of-error_of invalid_json = refl

-- The frame that `_send_corrupt_payload` makes of the encoded payload.
abbrev pub corrupt_frame : Corruption → List ℕ → List ℕ
corrupt_frame mode raw = corrupt_bytes mode (corrupt_raw mode raw) ++ corrupt_raw mode raw

-- A client whose connection takes what it is sent breaks a payload in one of the three ways: exactly
-- the broken frame is handed over. A server has these bytes to receive, in whatever segments and with
-- whatever behind them, the length is within its limit, and "{" decodes as a text that is no JSON:
-- the pass of its loop ends the loop, adds one to the failures of the active client, in its entry under
-- the name of the mode, changes nothing else in the statistics, and the connection is closed.
pub corrupt_payload_counted :
    (repr : Value → Text) (c : Codec) (B : IsBrace c) (mode : Corruption) (payload : Value)
    (text : Text) (raw rest : List ℕ) (g h : ℕ) (s : State) (turn : Turn) (sv : Server) (id : Text)
    (entry : ClientStats)
    → c.dumps payload ≡ some text
    → c.encode text ≡ some raw
    → length (corrupt_raw mode raw) < 2 ^ 32
    → CanSend g s
    → Fits sv.sock.self.max_message_size (length (corrupt_raw mode raw))
    → IsClosable sv.sock
    → HasStream h sv.sock (corrupt_frame mode raw ++ rest)
    → IsActive id entry sv.stats
    → ((send_corrupt_payload c mode payload s).0 ≡ ok tt)
      × (((send_corrupt_payload c mode payload s).1.os g).delivered
          ≡ (s.os g).delivered ++ corrupt_frame mode raw)
      × ((serve_turn repr c turn sv).0 ≡ false)
      × CountsOne (name_of mode) id entry sv.stats (serve_turn repr c turn sv).1.stats
      × (((serve_turn repr c turn sv).1.sock.os h).is_open ≡ false)
corrupt_payload_counted repr c B mode payload text raw rest g h s turn sv id entry dumped encoded
      small can fits closable st active =
    let sent = corrupt_raw mode raw in
    let (after, result, over) =
      send_corrupt_payload-HandsOver c mode payload text raw g s dumped encoded small can in
    let rejects =
      corrupt-Rejects c B sent rest h sv.sock small fits mode (corrupt_raw_idem mode raw) (record {
        is_conn = st.is_conn;
        is_open = st.is_open;
        stream = st.stream ∙ append_assoc (corrupt_bytes mode sent) sent rest;
      }) in
    let (ends, counts, shuts) =
      refused_turn repr c (error_of mode) h turn sv id entry closable st.is_conn rejects active in
    (
      ap (λ (r : Result (Unit {0}) × State). r.0) result,
      ap (λ (r : Result (Unit {0}) × State). (r.1.os g).delivered) result ∙ over.delivered,
      ends,
      subst (λ k. CountsOne k id entry sv.stats (serve_turn repr c turn sv).1.stats)
          (kind_of-error_of mode) counts,
      shuts,
    )
