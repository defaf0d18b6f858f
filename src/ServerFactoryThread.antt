-- ===== src/ServerFactoryThread.antt =====
-- jsocket/tserver.py: `ServerFactoryThread`, the worker that serves one connection.
pub mod Ended
pub mod Isolated
pub mod Replies
use python_json_socket.Prelude.{
  ℕ, Bool, true, false, not, List, [], ◌∷◌, Option, none, some, Text, same_ref, if◌then◌else◌,
}
use python_json_socket.Codec.{Codec, Value}
use python_json_socket.JsonSocket.{State, settimeout}
use python_json_socket.JsonSocket.Init.{Args, init}
use python_json_socket.JsonSocket.Close.{close_connection, close_socket}
use python_json_socket.Stats.{Tracker, Now, note_disconnect}
use python_json_socket.Stats.Session.{record_client_start}
use python_json_socket.Serving.{Server, Turn, serve_turn}
use python_json_socket.ThreadedServer.{format_client_id}

abbrev pub new_tracker : Tracker
new_tracker = record {
  client_stats = [];
  active_client_id = none;
  client_id = none;
  client_started_at = none;
}

-- A socket other than the new one is closed.
abbrev pub drop_existing : Option ℕ → ℕ → State → State
drop_existing none new_sock s = s
drop_existing (some h) new_sock s = if same_ref (some h) (some new_sock) then s else close_socket s

-- `if timeout is not None: settimeout(timeout)`, with an `OSError` passed over.
abbrev pub try_settimeout : ℕ → Option ℕ → State → State
try_settimeout new_sock none s = s
try_settimeout new_sock (some t) s = (settimeout new_sock (some t) s).1

-- `peer` is what `getpeername` answers, `none` where it raises an `OSError`.
unfoldable pub swap_socket : ℕ → Option (Text × ℕ) → Now → Server → Server
unfolding close_socket settimeout record_client_start format_client_id
swap_socket new_sock peer now sv =
    let s = drop_existing sv.sock.self.socket new_sock sv.sock in
    let s' = record s { self = record s.self { socket = some new_sock; conn = some new_sock } } in
    record {
      sock = try_settimeout new_sock s'.self.recv_timeout s';
      stats = record_client_start (format_client_id peer) now sv.stats;
    }

module _ (repr : Value → Text) (c : Codec) where
  -- Every `break` of the loop clears `_is_alive`.
  abbrev pub next_turn : (Server → Server) → Bool × Server → Server
  next_turn next (true, sv) = next sv
  next_turn next (false, sv) = sv

  -- `while self._is_alive`: the list holds the passes that find it set.
  unfoldable pub work_loop : List Turn → Server → Server
  unfolding serve_turn
  work_loop [] sv = sv
  work_loop (turn ∷ turns) sv = next_turn (work_loop turns) (serve_turn repr c turn sv)

  unfoldable pub run : List Turn → Now → Server → Server
  unfolding work_loop note_disconnect close_connection close_socket
  run turns finish sv =
      let left = work_loop turns sv in
      record {
        sock = close_socket (close_connection left.sock);
        stats = note_disconnect finish left.stats;
      }
