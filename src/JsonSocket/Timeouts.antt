-- ===== src/JsonSocket/Timeouts.antt =====
-- The `timeout`, `accept_timeout`, `recv_timeout` and `max_message_size` properties.
use python_json_socket.Prelude.{ℕ, suc, ℤ, pos, ◌&&◌, Option, none, some, same_ref, if◌then◌else◌}
use python_json_socket.JsonSocket.{State, M, not_positive, pure, throw, assign, settimeout, ◌>>◌}

-- `if sock is not None: sock.settimeout(t)`
abbrev settimeout_option : Option ℕ → Option ℕ → M (Unit {0})
settimeout_option none t s = pure tt s
settimeout_option (some h) t s = settimeout h t s

-- The connection's timeout is left alone on a server whose connection is the listening socket.
abbrev settimeout_conn : Option ℕ → M (Unit {0})
settimeout_conn t s =
    if s.self.is_server && same_ref s.self.conn s.self.socket
    then pure tt s
    else settimeout_option s.self.conn t s

unfoldable pub get_timeout : State → Option ℕ
get_timeout s = s.self.timeout

unfoldable pub get_accept_timeout : State → Option ℕ
get_accept_timeout s = s.self.accept_timeout

unfoldable pub get_recv_timeout : State → Option ℕ
get_recv_timeout s = s.self.recv_timeout

abbrev settimeout_main : Option ℕ → M (Unit {0})
settimeout_main t s = settimeout_option s.self.socket t s

unfoldable pub set_timeout : Option ℕ → M (Unit {0})
unfolding settimeout
set_timeout t = do
  assign (λ self. record self { timeout = t; accept_timeout = t; recv_timeout = t })
  settimeout_main t
  settimeout_conn t

unfoldable pub set_accept_timeout : Option ℕ → M (Unit {0})
unfolding settimeout
set_accept_timeout t = do assign (λ self. record self { accept_timeout = t }); settimeout_main t

unfoldable pub set_recv_timeout : Option ℕ → M (Unit {0})
unfolding settimeout
set_recv_timeout t = do assign (λ self. record self { recv_timeout = t }); settimeout_conn t

unfoldable pub get_max_message_size : State → Option ℕ
get_max_message_size s = s.self.max_message_size

unfoldable pub set_max_message_size : Option ℤ → M (Unit {0})
set_max_message_size none = assign (λ self. record self { max_message_size = none })
set_max_message_size (some (pos (suc n))) =
    assign (λ self. record self { max_message_size = some (suc n) })
set_max_message_size (some size) = throw not_positive
