-- ===== src/Tests/Closing.antt =====
-- A run of a `ThreadedServer` through two connections, and the sockets that it leaves.
use python_json_socket.ThreadedServer.{Threaded}
use python_json_socket.Prelude.{
  leb, ap, ◌≡◌, refl, false, List, [], ◌∷◌, ℕ, some, arith, if◌then◌else◌, text_eq,
}
use python_json_socket.Os.{Sock, recv, send}
use python_json_socket.Framing.{checksum_of, header_of}
use python_json_socket.Framing.Bytes.{of_be32, be32}
use python_json_socket.Framing.Crc.{crc32}
use python_json_socket.Framing.Header.{unpack_header, pack_header}
use python_json_socket.JsonSocket.Read.{read, read_loop}
use python_json_socket.JsonSocket.Write.{send_obj, send_loop}
use python_json_socket.JsonSocket.Message.{read_obj}
use python_json_socket.JsonServer.{accept_connection, listen}
use python_json_socket.JsonServer.Synced.{IsBound}
use python_json_socket.Serving.{Server, serve_turn}
use python_json_socket.ServerFactoryThread.{new_tracker}
use python_json_socket.JsonSocket.Close.{close_connection}
use python_json_socket.ThreadedServer.{
  handle_client_messages, Visit, wait_for_accept, accept_client, run,
}
use python_json_socket.ThreadedServer.Closed.{IsClear}
use python_json_socket.ThreadedServer.Closed.Run.{BreaksBefore, breaks, run_closes}
use python_json_socket.Tests.{null_codec, socket_with, server_state}
use python_json_socket.Tests.Servers.{no_repr, visit, interrupted, echo}

-- Socket 0 listens, 1 and 2 are the wakeup sockets, and there is no other one.
abbrev first_three : ℕ → Sock
first_three i = if leb i 2 then socket_with [] else record (socket_with []) { is_open = false }

abbrev listening : Server
listening = record {
  sock = record server_state {
    self = record server_state.self { conn = some 0 };
    os = first_three;
    next = 3;
  };
  stats = new_tracker;
}

abbrev threaded : Threaded
threaded = record { server = listening; reader = some 1; writer = some 2 }

listening-IsBound : IsBound 0 listening.sock
listening-IsBound = record {
  server = refl;
  main = refl;
  open_main = refl;
  accept = refl;
  free = omega arith;
}

listening-IsClear : IsClear 0 (some 1, some 2) listening.sock
listening-IsClear i (main, reader, writer) =
    ground (arith, (λ (e : 1 ≡ i). reader (ap some e)), (λ (e : 2 ≡ i). writer (ap some e)), main)

-- A client that ends in the middle of a frame, a wait that is woken, and a client whose loop `stop`
-- ends.
abbrev visits : List Visit
visits = visit ∷ interrupted ∷ record visit { turns = echo ∷ [] } ∷ []

visits-BreaksBefore : BreaksBefore no_repr null_codec visits listening
unfolding breaks serve_turn accept_client accept_connection wait_for_accept listen read_obj read
    read_loop recv unpack_header text_eq of_be32 checksum_of crc32 send_obj header_of pack_header
    send_loop be32 send handle_client_messages close_connection
visits-BreaksBefore = (refl, (tt, tt))

-- The wakeup socket that the server reads from.
run_closes_example : ((run no_repr null_codec visits threaded).server.sock.os 1).is_open ≡ false
run_closes_example =
    run_closes no_repr null_codec 0 visits threaded listening-IsBound listening-IsClear
      visits-BreaksBefore 1
