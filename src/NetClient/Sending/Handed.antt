-- ===== src/NetClient/Sending/Handed.antt =====
-- What `sendall` and `_send_corrupt_payload` hand over on a connection that takes what it is sent.
use python_json_socket.Prelude.{
  ℕ, suc, ◌^◌, ◌<◌, ◌≡◌, refl, ap, ◌∙◌, List, ◌++◌, append_assoc, length, some, Text, arith,
  ==_refl,
}
use python_json_socket.Framing.{checksum_of}
use python_json_socket.Framing.Bytes.{be32}
use python_json_socket.Framing.Header.{field_4s, pack_header_fits}
use python_json_socket.Framing.Frame.{checksum_of-lt}
use python_json_socket.Framing.Flipped.{bit_xor-differs}
use python_json_socket.Codec.{Codec, Value}
use python_json_socket.Os.{Sock}
use python_json_socket.JsonSocket.{
  State, ok, bind-ok, or_raise, struct_error, type_error, encode_error, put_sock, ◌>>◌,
}
use python_json_socket.JsonSocket.Write.{WriteExit, all_sent, refused, cut_off, send_loop}
use python_json_socket.JsonSocket.Write.Loop.{Writes, send_loop-Writes}
use python_json_socket.JsonSocket.Write.Half.{send_loop-inbound}
use python_json_socket.JsonSocket.Write.Framed.{CanSend, HandsOver}
use python_json_socket.NetClient.Sending.{
  sendall, sendall_on, finish_sendall, Corruption, bad_crc, bad_header, invalid_json, raw_of,
  corrupt_raw, corrupt_checksum, corrupt_magic, corrupt_header, send_corrupt_raw,
  send_corrupt_payload,
}

sent_all :
    (msg : List ℕ) (h : ℕ) (s : State) (run : WriteExit × Sock)
    → CanSend h s
    → Writes msg (s.os h) run
    → run.1.inbound ≡ (s.os h).inbound
    → (finish_sendall run.0 (put_sock h run.1 s) ≡ (ok tt, put_sock h run.1 s))
      × HandsOver msg h s (put_sock h run.1 s)
sent_all msg h s (all_sent, t) can (d, o, w) same = (
  refl,
  record {
    same_self = refl;
    delivered = rw (==_refl h) d;
    same_inbound = rw (==_refl h) same;
    can_send = record {
      is_conn = can.is_conn;
      is_open = rw (==_refl h) o;
      willing = rw (==_refl h) (w can.willing);
    };
  },
)
sent_all msg h s (refused, t) can (front, back, p, q, d, o, w) same = absurd (w can.willing)
sent_all msg h s (cut_off, t) can e same = absurd e

pub sendall-HandsOver :
    (msg : List ℕ) (h : ℕ) (s : State)
    → CanSend h s
    → (after : State) × (sendall msg s ≡ (ok tt, after)) × HandsOver msg h s after
unfolding sendall
sendall-HandsOver msg h s can =
    let run = send_loop (suc (length msg)) msg 0 (s.os h) in
    let (result, over) =
      sent_all msg h s run can
        (send_loop-Writes (suc (length msg)) msg 0 (s.os h) can.is_open (omega arith))
        (send_loop-inbound (suc (length msg)) msg 0 (s.os h)) in
    (put_sock h run.1 s, ap (λ c. sendall_on c msg s) can.is_conn ∙ result, over)

-- The header and the payload one behind the other.
pub sendall_both :
    (front back : List ℕ) (h : ℕ) (s : State)
    → CanSend h s
    → (after : State) × ((sendall front >> sendall back) s ≡ (ok tt, after))
      × HandsOver (front ++ back) h s after
sendall_both front back h s can =
    let (mid, first, one) = sendall-HandsOver front h s can in
    let (after, second, two) = sendall-HandsOver back h mid one.can_send in
    (
      after,
      bind-ok (sendall front) (λ _. sendall back) s mid tt first ∙ second,
      record {
        same_self = two.same_self ∙ one.same_self;
        delivered =
            two.delivered
            ∙ ap (λ l. l ++ back) one.delivered
            ∙ append_assoc (s.os h).delivered front back;
        same_inbound = two.same_inbound ∙ one.same_inbound;
        can_send = two.can_send;
      },
    )

pub corrupt_checksum-lt : (mode : Corruption) (raw : List ℕ) → corrupt_checksum mode raw < 2 ^ 32
corrupt_checksum-lt bad_crc raw = (bit_xor-differs (checksum_of raw) (checksum_of-lt raw)).1
corrupt_checksum-lt bad_header raw = checksum_of-lt raw
corrupt_checksum-lt invalid_json raw = checksum_of-lt raw

-- The header of a broken frame, where there is one.
abbrev pub corrupt_bytes : Corruption → List ℕ → List ℕ
corrupt_bytes mode raw =
    field_4s (corrupt_magic mode) ++ be32 (length raw) ++ be32 (corrupt_checksum mode raw)

corrupt_header_fits :
    (mode : Corruption) (raw : List ℕ)
    → length raw < 2 ^ 32
    → corrupt_header mode raw ≡ some (corrupt_bytes mode raw)
unfolding corrupt_header
corrupt_header_fits mode raw small =
    pack_header_fits (corrupt_magic mode) (length raw) (corrupt_checksum mode raw) small
      (corrupt_checksum-lt mode raw)

pub send_corrupt_raw-HandsOver :
    (mode : Corruption) (raw : List ℕ) (h : ℕ) (s : State)
    → length raw < 2 ^ 32
    → CanSend h s
    → (after : State) × (send_corrupt_raw mode raw s ≡ (ok tt, after))
      × HandsOver (corrupt_bytes mode raw ++ raw) h s after
send_corrupt_raw-HandsOver mode raw h s small can =
    let (after, result, over) = sendall_both (corrupt_bytes mode raw) raw h s can in
    (
      after,
      bind-ok (or_raise struct_error (corrupt_header mode raw))
            (λ header. sendall header >> sendall raw) s s (corrupt_bytes mode raw)
            (ap (λ o. or_raise struct_error o s) (corrupt_header_fits mode raw small))
          ∙ result,
      over,
    )

pub raw_of-encoded :
    (c : Codec) (payload : Value) (text : Text) (raw : List ℕ) (s : State)
    → c.dumps payload ≡ some text
    → c.encode text ≡ some raw
    → raw_of c payload s ≡ (ok raw, s)
raw_of-encoded c payload text raw s dumped encoded =
    bind-ok (or_raise type_error (c.dumps payload)) (λ t. or_raise encode_error (c.encode t)) s s
      text (ap (λ o. or_raise type_error o s) dumped)
    ∙ ap (λ o. or_raise encode_error o s) encoded

pub send_corrupt_payload-HandsOver :
    (c : Codec) (mode : Corruption) (payload : Value) (text : Text) (raw : List ℕ) (h : ℕ)
    (s : State)
    → c.dumps payload ≡ some text
    → c.encode text ≡ some raw
    → length (corrupt_raw mode raw) < 2 ^ 32
    → CanSend h s
    → (after : State) × (send_corrupt_payload c mode payload s ≡ (ok tt, after))
      × HandsOver (corrupt_bytes mode (corrupt_raw mode raw) ++ corrupt_raw mode raw) h s after
unfolding send_corrupt_payload
send_corrupt_payload-HandsOver c mode payload text raw h s dumped encoded small can =
    let (after, result, over) =
      send_corrupt_raw-HandsOver mode (corrupt_raw mode raw) h s small can in
    (
      after,
      bind-ok (raw_of c payload) (λ r. send_corrupt_raw mode (corrupt_raw mode r)) s s raw
            (raw_of-encoded c payload text raw s dumped encoded)
          ∙ result,
      over,
    )
