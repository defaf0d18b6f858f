-- ===== src/Tests/Servers.antt =====
-- Runs of the servers and of their statistics on concrete data, and the theorems at these data.
use python_json_socket.Prelude.{
  ◌≢◌, arith, pos, ℕ, ◌+◌, ◌≡◌, refl, true, false, [], ◌∷◌, ◌++◌, none, some, Text, codes, text_eq,
  contains,
}
use python_json_socket.Framing.{header_of, checksum_of}
use python_json_socket.Framing.Bytes.{be32, of_be32}
use python_json_socket.Framing.Crc.{crc32}
use python_json_socket.Framing.Header.{pack_header, unpack_header}
use python_json_socket.Codec.{null, Value, dict, end, field, str}
use python_json_socket.Os.{recv, send}
use python_json_socket.JsonSocket.{ok}
use python_json_socket.JsonSocket.Read.{read, read_loop}
use python_json_socket.JsonSocket.Write.{send_obj, send_loop}
use python_json_socket.JsonSocket.Message.{read_obj}
use python_json_socket.JsonServer.{accept_connection, accepted}
use python_json_socket.Dict.{lookup, insert}
use python_json_socket.Stats.{
  ClientStats, Now, new_client_stats, update_stats, get_active_client_id, note_message_in,
  note_message_out, note_disconnect,
}
use python_json_socket.Stats.Balanced.{IsIdle, IsRested}
use python_json_socket.Stats.Identity.{decimal, extract_client_id}
use python_json_socket.Stats.Snapshot.{map_values}
use python_json_socket.Stats.Snapshot
use python_json_socket.ThreadedServer.Connected.{accept_client-connected}
use python_json_socket.JsonServer.Synced.{IsBound}
use python_json_socket.ThreadedServer.Listening.{serve_visits-IsBound}
use python_json_socket.Serving.{Server, Turn}
use python_json_socket.Serving.Replies.{IsServing}
use python_json_socket.ThreadedServer.Replies.{message_loop-replies}
use python_json_socket.ThreadedServer.{
  Threaded, wait_for_accept, accept_client, serve_visits, message_loop, Visit, readable, woken,
  format_client_id, run,
}
use python_json_socket.ThreadedServer.Balanced.{run_balanced}
use python_json_socket.ServerFactoryThread
use python_json_socket.ServerFactoryThread.{new_tracker, swap_socket}
use python_json_socket.ServerFactoryThread.Isolated.{run_isolated}
use python_json_socket.ServerFactoryThread.Ended.{run-IsRested}
use python_json_socket.ServerFactory.Handover.{Attempt, accept_one, hand_over}
use python_json_socket.ServerFactory.Handover.Accepted.{AcceptOutcome, accept_one_outcome}
use python_json_socket.Tests.{
  null_codec-IsLossless, null_IsSendable, null_codec, socket_with, two_segments, null_frame,
  server_state, client_with,
}

abbrev pub no_repr : Value → Text
no_repr v = codes "..."

abbrev pub at : ℕ → Now
at t = record { wall = 1000 + t; mono = t }

-- A handler that answers `None` with `null`, and a client that sends one message.
abbrev pub echo : Turn
echo = record {
  at_read = at 2;
  at_reply = at 3;
  identifies = λ v. none;
  process = λ v. ok (some v);
}

abbrev pub visit : Visit
visit = record {
  wait = readable;
  event = accepted (codes "10.0.0.9", 4000) (socket_with two_segments);
  peer = none;
  start = at 1;
  turns = echo ∷ echo ∷ [];
  finish = at 9;
}

abbrev pub interrupted : Visit
interrupted = record visit { wait = woken }

abbrev resting : Server
resting = record { sock = server_state; stats = new_tracker }

resting-IsIdle : IsIdle resting.stats
unfolding lookup
resting-IsIdle = record { no_active = refl; no_client = refl; keys = tt; rested = λ k e l. cc }

formatted_v6 : format_client_id (some (codes "::1", 80)) ≡ codes "[::1]:80"
unfolding format_client_id
formatted_v6 = refl

extracted :
    extract_client_id no_repr (dict (field (codes "client_id") (str (codes "  ab ")) end))
    ≡ some (codes "ab")
unfolding extract_client_id text_eq
extracted = refl

abbrev resting_thread : Threaded
resting_thread = record { server = resting; reader = none; writer = none }

run_balanced_example :
    IsIdle (run no_repr null_codec (visit ∷ interrupted ∷ []) resting_thread).server.stats
run_balanced_example =
    run_balanced no_repr null_codec (visit ∷ interrupted ∷ []) resting_thread resting-IsIdle

resting-IsBound : IsBound 0 resting.sock
resting-IsBound = record {
  server = refl;
  main = refl;
  open_main = refl;
  accept = refl;
  free = omega arith;
}

serve_visits-IsBound_example :
    IsBound 0 (serve_visits no_repr null_codec (visit ∷ interrupted ∷ visit ∷ []) resting).sock
serve_visits-IsBound_example =
    serve_visits-IsBound no_repr null_codec 0 (visit ∷ interrupted ∷ visit ∷ []) resting
      resting-IsBound

abbrev served : Server
served = (accept_client visit (serve_visits no_repr null_codec (interrupted ∷ []) resting)).1

accept_client-connected_example :
    ((Snapshot.get_client_stats
        (serve_visits no_repr null_codec (interrupted ∷ []) resting).stats
        5).connected_clients
      ≡ 0)
    × ((Snapshot.get_client_stats
          (message_loop no_repr null_codec (echo ∷ []) served).stats
          5).connected_clients
        ≡ 1)
unfolding serve_visits accept_client accept_connection
accept_client-connected_example =
    accept_client-connected no_repr null_codec (interrupted ∷ []) visit (echo ∷ []) 5 resting served
      resting-IsIdle refl

-- The connection 1 of the server has `null` to receive, and the first byte of another message.
abbrev ready_server : Server
ready_server = record { sock = server_state; stats = new_tracker }

message_loop-replies_example :
    (((message_loop no_repr null_codec (echo ∷ []) ready_server).sock.os 1).delivered
      ≡ [] ++ (null_frame ++ []))
    × IsServing 0 1
        (some 10485760)
        (b'J' ∷ [])
        (message_loop no_repr null_codec (echo ∷ []) ready_server).sock
unfolding null_IsSendable be32 checksum_of crc32
message_loop-replies_example =
    message_loop-replies no_repr null_codec null_codec-IsLossless (λ v. v) (some 10485760)
      (some 10485760) 0 1 (null ∷ []) (echo ∷ []) ready_server (b'J' ∷ []) (null_IsSendable, tt)
      (null_IsSendable, tt) refl ((λ v. refl), tt)
      (record {
        is_main = refl;
        has_limit = refl;
        can_send = record { is_conn = refl; is_open = refl; willing = tt };
        has_stream = record { is_conn = refl; is_open = refl; stream = refl };
      })

-- A worker for the same client.
abbrev worked : Server
worked = ServerFactoryThread.run no_repr null_codec (echo ∷ []) (at 9) (
    swap_socket 0 (some (codes "10.0.0.9", 4000)) (at 1)
      (record { sock = client_with two_segments; stats = new_tracker }))

worked_reply : (worked.sock.os 0).delivered ≡ null_frame
unfolding ServerFactoryThread.run swap_socket read_obj read read_loop recv unpack_header text_eq
    of_be32 checksum_of crc32 send_obj header_of pack_header send_loop be32 send
worked_reply = refl

abbrev client_id : Text
client_id = codes "10.0.0.9:4000"

abbrev client_entry : ClientStats
client_entry = record (new_client_stats client_id) {
  connects = 1;
  disconnects = 1;
  messages_in = 1;
  messages_out = 1;
  bytes_in = 4;
  bytes_out = 4;
  total_connected_duration = 8;
  last_connect_ts = some 1001;
  last_disconnect_ts = some 1009;
  last_message_ts = some 1003;
}

worked_entry : lookup client_id worked.stats.client_stats ≡ some client_entry
unfolding ServerFactoryThread.run swap_socket read_obj read read_loop recv unpack_header text_eq
    of_be32 checksum_of crc32 send_obj header_of pack_header send_loop be32 send lookup insert
    get_active_client_id note_message_in note_message_out note_disconnect update_stats
    format_client_id contains decimal extract_client_id
worked_entry = refl

run-IsRested_example : IsRested client_id client_entry
run-IsRested_example =
    run-IsRested no_repr null_codec 0 (some (codes "10.0.0.9", 4000)) (at 1) (at 9) (echo ∷ [])
      (record { sock = client_with two_segments; stats = new_tracker }) refl client_id client_entry
      worked_entry

-- A factory that listens on socket 0, and a connection for it.
abbrev pub attempt : Attempt
attempt = record {
  wait = readable;
  event = accepted (codes "10.0.0.9", 4000) (socket_with two_segments);
  is_alive = true;
  thread_args = record {
    address = codes "127.0.0.1";
    port = 5489;
    timeout = some 2;
    max_message_size = some (pos 100);
    accept_timeout = none;
    recv_timeout = some 7;
    create_socket = false;
  };
  peer = some (codes "10.0.0.9", 4000);
  now = at 1;
  starts = true;
}

accept_one_outcome_example : AcceptOutcome 0 2 server_state (accept_one attempt server_state)
accept_one_outcome_example =
    accept_one_outcome attempt (codes "10.0.0.9", 4000) (socket_with two_segments) 0 server_state
      resting-IsBound refl refl refl refl

run_isolated_example :
    (((ServerFactoryThread.run no_repr null_codec
          (echo ∷ echo ∷ [])
          (at 9)
          (record { sock = client_with two_segments; stats = new_tracker })).sock.os
        0).is_open
      ≡ false)
    × ((i : ℕ)
        → i ≢ 0
        → (ServerFactoryThread.run no_repr null_codec
              (echo ∷ echo ∷ [])
              (at 9)
              (record { sock = client_with two_segments; stats = new_tracker })).sock.os
            i
          ≡ socket_with two_segments)
run_isolated_example =
    run_isolated no_repr null_codec 0 (echo ∷ echo ∷ []) (at 9)
      (record { sock = client_with two_segments; stats = new_tracker }) refl refl

worker_timeout : ((accept_one attempt server_state).1.os 2).timeout ≡ some 7
unfolding accept_one wait_for_accept accept_connection hand_over swap_socket
worker_timeout = refl
