-- ===== src/NetClient/Sending/Partial.antt =====
-- A payload that net_client.py stops in the middle makes the server time out.
use python_json_socket.Stats.{ClientStats}
use python_json_socket.Stats.Failures.Noted.{IsActive, CountsOne}
use python_json_socket.Prelude.{
  ℕ, ◌/◌, ◌^◌, ◌<◌, ◌≡◌, ap, ◌∙◌, false, true, Bool-cases, inl, inr, leb, List, ◌++◌, length, take,
  length-take, some, Text, codes, arith,
}
use python_json_socket.Framing.{frame_magic, frame_header_size, checksum_of}
use python_json_socket.Framing.Header.{pack_header, pack_header_fits}
use python_json_socket.Framing.Frame.{
  header_bytes, length-header_bytes, unpack-header_bytes, checksum_of-lt,
}
use python_json_socket.Codec.{Codec, Value}
use python_json_socket.JsonSocket.{
  State, JsonSocket, Result, ok, read_timeout, bind-ok, bind-raise, struct_error, or_raise, framing,
  ◌>>◌, ◌>>=◌,
}
use python_json_socket.JsonSocket.Close.{close_connection}
use python_json_socket.JsonSocket.Close.Closed.{IsClosable}
use python_json_socket.JsonSocket.Read.{read}
use python_json_socket.JsonSocket.Read.Exact.{HasStream, read-Returns}
use python_json_socket.JsonSocket.Read.Stalled.{Stalls, read-Stalls, read_stalled}
use python_json_socket.JsonSocket.Message.{read_header, read_payload, decode_payload, read_obj}
use python_json_socket.JsonSocket.Message.Framed.{Fits, read_header-Announces}
use python_json_socket.JsonSocket.Write.Framed.{CanSend, HandsOver}
use python_json_socket.Serving.{Server, Turn, serve_turn}
use python_json_socket.NetClient.Sending.{sendall, raw_of, cutoff, send_partial_payload}
use python_json_socket.NetClient.Sending.Handed.{sendall_both, raw_of-encoded}
use python_json_socket.NetClient.Sending.Rejected.{Rejects}
use python_json_socket.NetClient.Sending.Refused.{refused_turn}

-- What goes out: the header of the whole payload, and its first half.
abbrev pub partial_frame : List ℕ → List ℕ
partial_frame raw = header_bytes raw ++ take (cutoff raw) raw

cutoff_lt : (raw : List ℕ) → 1 < length raw → length (take (cutoff raw) raw) < length raw
cutoff_lt raw two = elim (Bool-cases (leb 1 (length raw / 2))) [
  | inl half ↦ rw half (omega (arith, length-take (length raw / 2) raw))
  | inr none ↦ rw none (omega (arith, length-take 1 raw))
]

send_partial_payload-HandsOver :
    (c : Codec) (payload : Value) (text : Text) (raw : List ℕ) (h : ℕ) (s : State)
    → c.dumps payload ≡ some text
    → c.encode text ≡ some raw
    → length raw < 2 ^ 32
    → CanSend h s
    → (after : State) × (send_partial_payload c payload s ≡ (ok tt, after))
      × HandsOver (partial_frame raw) h s after
unfolding send_partial_payload
send_partial_payload-HandsOver c payload text raw h s dumped encoded small can =
    let (after, result, over) = sendall_both (header_bytes raw) (take (cutoff raw) raw) h s can in
    (
      after,
      bind-ok (raw_of c payload)
            (λ raw.
              or_raise struct_error (pack_header frame_magic (length raw) (checksum_of raw))
              >>= λ header. sendall header >> sendall (take (cutoff raw) raw))
            s s raw (raw_of-encoded c payload text raw s dumped encoded)
          ∙ bind-ok (or_raise struct_error (pack_header frame_magic (length raw) (checksum_of raw)))
              (λ header. sendall header >> sendall (take (cutoff raw) raw)) s s (header_bytes raw)
              (ap (λ o. or_raise struct_error o s)
                (pack_header_fits frame_magic _ _ small (checksum_of-lt raw)))
          ∙ result,
      over,
    )

partial-Rejects :
    (c : Codec) (raw part : List ℕ) (h : ℕ) (s : State)
    → length raw < 2 ^ 32
    → length part < length raw
    → Fits s.self.max_message_size (length raw)
    → HasStream h s (header_bytes raw ++ part)
    → Stalls (s.os h).inbound
    → Rejects c read_timeout h s
unfolding read_obj
partial-Rejects c raw part h s small short fits st stalls =
    let first =
      read-Returns (header_bytes raw) part h frame_header_size true s (length-header_bytes raw)
        st in
    let left = first.has_rest in
    let noted : State = record first.after {
      self = record first.after.self { last_read_size = some (length raw) };
    } in
    let (before, result, same) =
      read_stalled part h (length raw) noted short
        (record { is_conn = left.is_conn; is_open = left.is_open; stream = left.stream })
        (read-Stalls (header_bytes raw) part h frame_header_size true s st first stalls) in
    record {
      before = before;
      result =
          bind-ok read_header (read_payload c) s first.after (length raw, checksum_of raw)
            (read_header-Announces (header_bytes raw) raw part h s first
              (length-header_bytes raw, unpack-header_bytes raw small) fits)
          ∙ bind-raise (read (length raw) false) (decode_payload c (checksum_of raw)) noted
              (close_connection before) (framing read_timeout) result;
      same_conn =
          ap (λ (o : JsonSocket). o.conn) same ∙ ap (λ (o : JsonSocket). o.conn) first.same_self;
      same_main =
          ap (λ (o : JsonSocket). o.socket) same
          ∙ ap (λ (o : JsonSocket). o.socket) first.same_self;
      same_server =
          ap (λ (o : JsonSocket). o.is_server) same
          ∙ ap (λ (o : JsonSocket). o.is_server) first.same_self;
    }

-- A client whose connection takes what it is sent sends a payload of at least two encoded bytes in
-- part: exactly the header of the whole payload and the part before the cutoff are handed over. A
-- server has these bytes to receive, in whatever segments, and behind them nothing comes before a
-- timeout; the announced length is within its limit: the pass of its loop ends the loop, adds one
-- to the timeouts in the entry of the active client, changes nothing else in the statistics, and the
-- connection is closed.
pub partial_payload_counted :
    (repr : Value → Text) (c : Codec) (payload : Value) (text : Text) (raw : List ℕ) (g h : ℕ)
    (s : State) (turn : Turn) (sv : Server) (id : Text) (entry : ClientStats)
    → c.dumps payload ≡ some text
    → c.encode text ≡ some raw
    → 1 < length raw
    → length raw < 2 ^ 32
    → CanSend g s
    → Fits sv.sock.self.max_message_size (length raw)
    → IsClosable sv.sock
    → HasStream h sv.sock (partial_frame raw)
    → Stalls (sv.sock.os h).inbound
    → IsActive id entry sv.stats
    → ((send_partial_payload c payload s).0 ≡ ok tt)
      × (((send_partial_payload c payload s).1.os g).delivered
          ≡ (s.os g).delivered ++ partial_frame raw)
      × ((serve_turn repr c turn sv).0 ≡ false)
      × CountsOne (codes "timeout") id entry sv.stats (serve_turn repr c turn sv).1.stats
      × (((serve_turn repr c turn sv).1.sock.os h).is_open ≡ false)
partial_payload_counted repr c payload text raw g h s turn sv id entry dumped encoded two small can
      fits closable st stalls active =
    let (after, result, over) =
      send_partial_payload-HandsOver c payload text raw g s dumped encoded small can in
    let rejects =
      partial-Rejects c raw (take (cutoff raw) raw) h sv.sock small (cutoff_lt raw two) fits st
        stalls in
    let (ends, counts, shuts) =
      refused_turn repr c read_timeout h turn sv id entry closable st.is_conn rejects active in
    (
      ap (λ (r : Result (Unit {0}) × State). r.0) result,
      ap (λ (r : Result (Unit {0}) × State). (r.1.os g).delivered) result ∙ over.delivered,
      ends,
      counts,
      shuts,
    )
