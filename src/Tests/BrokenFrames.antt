-- ===== src/Tests/BrokenFrames.antt =====
-- Frames that a client breaks, and the server that receives them.
use python_json_socket.Stats.Failures.Noted.{IsActive, CountsOne}
use python_json_socket.Stats.{
  ClientStats, Tracker, new_client_stats, note_connect, update_stats, get_active_client_id,
}
use python_json_socket.Stats.Session.{record_client_start}
use python_json_socket.Dict.{lookup, insert}
use python_json_socket.Prelude.{
  some, true, text_eq, ◌≡◌, refl, false, Bool, [], ◌∷◌, ◌++◌, codes, arith,
}
use python_json_socket.Framing.Bytes.{be32}
use python_json_socket.Os.{segment}
use python_json_socket.JsonSocket.{ok}
use python_json_socket.Serving.{Server, serve_turn}
use python_json_socket.ServerFactoryThread.{new_tracker}
use python_json_socket.NetServer.{echo_turn}
use python_json_socket.NetClient.{make_payload}
use python_json_socket.NetClient.Sending.{bad_crc, send_corrupt_payload}
use python_json_socket.NetClient.Sending.Rejected.{IsBrace}
use python_json_socket.NetClient.Sending.Counted.{corrupt_frame, corrupt_payload_counted}
use python_json_socket.Tests.Codecs.{field_codec}
use python_json_socket.Tests.{client_with}
use python_json_socket.Tests.Servers.{at, no_repr}
use python_json_socket.Os.{timed_out}
use python_json_socket.Prelude.{take, drop}
use python_json_socket.NetClient.Sending.{send_partial_payload}
use python_json_socket.NetClient.Sending.Partial.{partial_frame, partial_payload_counted}
use python_json_socket.Tests.NetScripts.{client, payload, dumped}

-- The broken payload, and a server that has it to receive.
field_codec-IsBrace : IsBrace field_codec
field_codec-IsBrace = record { text = codes "{"; decoded = refl; loaded = refl; refused = refl }

-- It serves a client whose start it has recorded.
abbrev joined : Tracker
joined = record_client_start (codes "10.0.0.9:4000") (at 1) new_tracker

abbrev joined_entry : ClientStats
joined_entry = record (new_client_stats (codes "10.0.0.9:4000")) {
  connected = true;
  connects = 1;
  last_connect_ts = some 1001;
  connected_since = some 1;
}

joined-IsActive : IsActive (codes "10.0.0.9:4000") joined_entry joined
unfolding record_client_start note_connect update_stats get_active_client_id lookup insert text_eq
joined-IsActive = record { active = refl; named = λ e. cc e; entry = refl }

abbrev attacked : Server
attacked = record {
  sock = client_with (segment (corrupt_frame bad_crc dumped) ∷ []);
  stats = joined;
}

-- Its pass, and whether its loop goes on.
abbrev hit : Bool × Server
hit = serve_turn no_repr field_codec (echo_turn no_repr (at 2) (at 3)) attacked

corrupt_payload_counted_example :
    ((send_corrupt_payload field_codec bad_crc payload client).0 ≡ ok tt)
    × (((send_corrupt_payload field_codec bad_crc payload client).1.os 0).delivered
        ≡ [] ++ corrupt_frame bad_crc dumped)
    × (hit.0 ≡ false)
    × CountsOne (codes "bad_crc") (codes "10.0.0.9:4000") joined_entry joined hit.1.stats
    × ((hit.1.sock.os 0).is_open ≡ false)
unfolding make_payload be32
corrupt_payload_counted_example =
    corrupt_payload_counted no_repr field_codec field_codec-IsBrace bad_crc payload dumped dumped []
      0 0 client (echo_turn no_repr (at 2) (at 3)) attacked (codes "10.0.0.9:4000") joined_entry
      refl refl (omega arith) (record { is_conn = refl; is_open = refl; willing = tt })
      (omega arith) refl (record { is_conn = refl; is_open = refl; stream = refl }) joined-IsActive

-- The first half of the payload comes in two segments, and then nothing in time.
abbrev waiting : Server
waiting = record {
  sock = client_with (
      segment (take 7 (partial_frame dumped))
      ∷ segment (drop 7 (partial_frame dumped))
      ∷ timed_out
      ∷ []);
  stats = joined;
}

abbrev waited : Bool × Server
waited = serve_turn no_repr field_codec (echo_turn no_repr (at 2) (at 3)) waiting

partial_payload_counted_example :
    ((send_partial_payload field_codec payload client).0 ≡ ok tt)
    × (((send_partial_payload field_codec payload client).1.os 0).delivered
        ≡ [] ++ partial_frame dumped)
    × (waited.0 ≡ false)
    × CountsOne (codes "timeout") (codes "10.0.0.9:4000") joined_entry joined waited.1.stats
    × ((waited.1.sock.os 0).is_open ≡ false)
unfolding make_payload be32
partial_payload_counted_example =
    partial_payload_counted no_repr field_codec payload dumped dumped 0 0 client
      (echo_turn no_repr (at 2) (at 3)) waiting (codes "10.0.0.9:4000") joined_entry refl refl
      (omega arith) (omega arith) (record { is_conn = refl; is_open = refl; willing = tt })
      (omega arith) refl (record { is_conn = refl; is_open = refl; stream = refl }) tt
      joined-IsActive
