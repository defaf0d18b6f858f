-- ===== src/Tests/NetScripts.antt =====
-- The scripts on concrete data, and the theorems at these data.
use python_json_socket.Prelude.{
  if◌then◌else◌, ◌<◌, ◌+◌, leb, ℕ, zero, suc, ap, ◌*◌, ◌≡◌, ◌≤◌, refl, pos, true, false, [], ◌∷◌,
  ◌++◌, text_eq, List, Option, none, some, Text, codes, length, replicate, arith,
}
use python_json_socket.Framing.Bytes.{be32}
use python_json_socket.Framing.Frame.{header_bytes}
use python_json_socket.Codec.{Value, str}
use python_json_socket.Os.{segment}
use python_json_socket.JsonSocket.{State}
use python_json_socket.Stats.{new_client_stats}
use python_json_socket.Stats.Snapshot.{Snapshot, ClientSnapshot, format_client_stats}
use python_json_socket.Serving.{Server}
use python_json_socket.Serving.Replies.{IsServing}
use python_json_socket.ServerFactoryThread.{work_loop, new_tracker}
use python_json_socket.Exchange.{IsSendable}
use python_json_socket.NetServer.Report.{sorted, keys}
use python_json_socket.NetServer.Report.Sorted.{Lists, report_lines-clients}
use python_json_socket.NetClient.{random_hex, payload_from_message, make_payload}
use python_json_socket.NetClient.Bounds.{random_hex-bounds}
use python_json_socket.NetClient.Echoed.{echo_of, echo_of-payload_from_message}
use python_json_socket.NetClient.Sending.{bad_crc}
use python_json_socket.NetClient.Modes.{Options, performance, Draw}
use python_json_socket.NetClient.Modes.Main.{exit_code}
use python_json_socket.NetServer.{summarize_payload}
use python_json_socket.Stats.Identity.{get_field}
use python_json_socket.NetClient.Sending.Expected.{echo_reply}
use python_json_socket.NetClient.Modes.Session.{session, Echoes, turns_at}
use python_json_socket.Tests.Codecs.{text_field, number_field, field_codec, field_codec-IsLossless}
use python_json_socket.Tests.{client_with}
use python_json_socket.Tests.Servers.{at, no_repr}

-- Sixty bytes in hexadecimal are 120 zeros.
abbrev zeros : ℕ → Text
zeros n = replicate (2 * n) b'0'

length-replicate : (n : ℕ) (c : ℕ) → length (replicate n c) ≡ n
length-replicate zero c = refl
length-replicate (suc n) c = ap suc (length-replicate n c)

-- The seventh of 61 sizes.
abbrev seventh : ℕ → ℕ
seventh n = if leb n 7 then 0 else 7

seventh-below : (n : ℕ) → 0 < n → seventh n < n
seventh-below n positive = ground arith

random_hex-bounds_example :
    (length (random_hex seventh zeros 4 64) ≡ seventh 61 + 4)
    × (4 ≤ length (random_hex seventh zeros 4 64))
    × (length (random_hex seventh zeros 4 64) ≤ 64)
random_hex-bounds_example =
    random_hex-bounds seventh zeros 4 64 seventh-below (λ n. length-replicate (2 * n) b'0')
      (omega arith)

-- A message that is no JSON, by a `json.loads` that refuses everything.
echo_of-payload_from_message_example :
    echo_of (payload_from_message (λ t. none) (some (codes "hi")) (codes "c0ffee"))
    ≡ str (codes "c0ffee")
echo_of-payload_from_message_example =
    echo_of-payload_from_message (λ t. none) (some (codes "hi")) (codes "c0ffee")

abbrev client_shot : ClientSnapshot
client_shot = format_client_stats (new_client_stats (codes "b")) 5

abbrev shot : Snapshot
shot = record {
  connected_clients = 0;
  clients = (codes "b", client_shot) ∷ (codes "a", client_shot) ∷ [];
}

report_lines-clients_example : Lists (λ t. codes "None") (λ q. codes "0.00") shot
report_lines-clients_example = report_lines-clients (λ t. codes "None") (λ q. codes "0.00") shot

sorted_keys : sorted (keys shot.clients) ≡ codes "a" ∷ codes "b" ∷ []
unfolding sorted
sorted_keys = refl

-- Two hexadecimal digits in a message without a pad, by client 7, and the bytes of the payload and of
-- the answer.
abbrev options : Options
options = record {
  host = codes "127.0.0.1";
  port = 5491;
  message = none;
  mode = performance;
  num = pos 1;
  count = pos 1;
  cycles = pos 1;
  error = pos 0;
  read = pos 1;
}

abbrev draws : ℕ → Draw
draws seq = record {
  token_hex = zeros;
  hex = λ n. 0;
  range = 0;
  pad = λ n. 0;
  chance = 999;
  corruption = bad_crc;
}

abbrev pub payload : Value
payload = make_payload 7 0 (codes "perf") 0 (codes "0000")

abbrev pub dumped : Text
dumped = number_field (codes "client") 7 (
    number_field (codes "seq") 0
      (text_field (codes "label") (codes "perf") (text_field (codes "data") (codes "0000") [])))

abbrev answered : Text
answered = text_field (codes "data") (codes "0000") []

abbrev limit : Option ℕ
limit = some 10485760

unfoldable payload_IsSendable : IsSendable field_codec limit limit payload
unfolding make_payload
payload_IsSendable = record {
  text = dumped;
  payload = dumped;
  dumped = refl;
  encoded = refl;
  small = omega arith;
  fits_ours = omega arith;
  fits_theirs = omega arith;
}

unfoldable answer_IsSendable : IsSendable field_codec limit limit (echo_reply payload)
unfolding make_payload summarize_payload get_field text_eq
answer_IsSendable = record {
  text = answered;
  payload = answered;
  dumped = refl;
  encoded = refl;
  small = omega arith;
  fits_ours = omega arith;
  fits_theirs = omega arith;
}

-- Both ends, each with what the other sends to receive, and one byte more.
abbrev request : List ℕ
request = header_bytes dumped ++ dumped

abbrev response : List ℕ
response = header_bytes answered ++ answered

abbrev pub client : State
client = client_with (segment (response ++ b'J' ∷ []) ∷ [])

abbrev worker : Server
worker = record { sock = client_with (segment (request ++ b'J' ∷ []) ∷ []); stats = new_tracker }

client-IsServing : IsServing 0 0 limit (response ++ b'J' ∷ []) client
unfolding be32
client-IsServing = record {
  is_main = refl;
  has_limit = refl;
  can_send = record { is_conn = refl; is_open = refl; willing = tt };
  has_stream = record { is_conn = refl; is_open = refl; stream = refl };
}

worker-IsServing : IsServing 0 0 limit (request ++ b'J' ∷ []) worker.sock
unfolding be32
worker-IsServing = record {
  is_main = refl;
  has_limit = refl;
  can_send = record { is_conn = refl; is_open = refl; willing = tt };
  has_stream = record { is_conn = refl; is_open = refl; stream = refl };
}

-- The worker after its pass.
abbrev served : Server
served = work_loop no_repr field_codec (turns_at no_repr ((at 2, at 3) ∷ [])) worker

session_example :
    Echoes options 2 7
      (codes "perf")
      (λ d. 0)
      (λ i n. true)
      draws
      field_codec
      field_codec-IsLossless
      limit
      limit
      0
      0
      refl
      refl
      (payload ∷ [])
      (payload_IsSendable, tt)
      1
      0
      (b'J' ∷ [])
      client
    × (((served.sock.os 0).delivered ≡ [] ++ (response ++ []))
        × IsServing 0 0 limit (b'J' ∷ []) served.sock)
unfolding payload_IsSendable answer_IsSendable random_hex be32
session_example =
    session options 2 7 (codes "perf") (λ d. 0) (λ i n. true) draws field_codec
      field_codec-IsLossless limit limit 0 0 refl refl no_repr 1 0 (payload_IsSendable, tt)
      (answer_IsSendable, tt) (b'J' ∷ []) (b'J' ∷ []) client ((at 2, at 3) ∷ []) 0 0 worker refl
      client-IsServing worker-IsServing

finished : (exit_code options (true ∷ []) ≡ 0) × (exit_code options (true ∷ false ∷ []) ≡ 3)
unfolding exit_code
finished = (refl, refl)
