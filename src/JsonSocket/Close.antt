-- ===== src/JsonSocket/Close.antt =====
-- `_close_connection` of `JsonSocket` and of `JsonServer`, `_close_socket` and `close`.
pub mod Closed
use python_json_socket.Prelude.{
  ℕ, Bool, true, false, ◌||◌, not, Option, none, some, same_ref, if◌then◌else◌,
}
use python_json_socket.Os.{shut}
use python_json_socket.JsonSocket.{State, put_sock}

-- `if sock and sock.fileno() != -1: shutdown, close`
abbrev pub shut_ref : ℕ → State → State
shut_ref h s = if (s.os h).is_open then put_sock h (shut (s.os h)) s else s

abbrev pub shut_option : Option ℕ → State → State
shut_option none s = s
shut_option (some h) s = shut_ref h s

-- A server passes over a connection that is its own listening socket.
unfoldable pub close_connection : State → State
close_connection s =
    if s.self.is_server
    then (if same_ref s.self.conn s.self.socket then s else shut_option s.self.conn s)
    else shut_option s.self.conn s

unfoldable pub close_socket : State → State
close_socket s =
    let s' = shut_option s.self.socket s in
    record s' { self = record s'.self { is_listening = false } }

unfoldable pub close : State → State
unfolding close_connection close_socket
close s = close_socket (close_connection s)
