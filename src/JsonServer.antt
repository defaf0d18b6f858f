-- ===== src/JsonServer.antt =====
-- jsocket/jsocket_base.py: `JsonServer`, which accepts one connection at a time.
pub mod Synced
use python_json_socket.Prelude.{
  ℕ, ◌+◌, Bool, true, false, not, ◌&&◌, Option, none, some, Text, same_ref, pos, if◌then◌else◌,
}
use python_json_socket.Framing.{default_max_message_size}
use python_json_socket.Os.{Sock}
use python_json_socket.JsonSocket.{
  State, M, ok, Exc, os_error, socket_timeout, attribute_error, pure, throw, assign, settimeout,
  put_sock, ◌>>=◌, ◌>>◌,
}
use python_json_socket.JsonSocket.Init.{Args, init}

-- `_bind`; the operating system lets the address be bound or not.
unfoldable pub bind : Bool → M (Unit {0})
bind true = assign (λ self. record self { is_listening = false })
bind false = throw os_error

-- `JsonServer.__init__`: the limit is the default one.
unfoldable pub init_server : Text → ℕ → Option ℕ → Option ℕ → Option ℕ → Bool → M (Unit {0})
unfolding init bind
init_server address port timeout accept_timeout recv_timeout binds = do
  init (record {
    address = address;
    port = port;
    timeout = timeout;
    max_message_size = some (pos default_max_message_size);
    accept_timeout = accept_timeout;
    recv_timeout = recv_timeout;
    create_socket = true;
  })
  assign (λ self. record self { is_server = true })
  bind binds

-- A method of the main socket, which `None` lacks and a closed one refuses.
abbrev with_main : {A : Type 0} → Option ℕ → M A → M A
with_main none m s = throw attribute_error s
with_main (some k) m s = if (s.os k).is_open then m s else throw os_error s

unfoldable pub listen : M (Unit {0})
listen s =
    if s.self.is_listening
    then (pure tt s)
    else with_main s.self.socket (assign (λ self. record self { is_listening = true })) s

-- What the operating system answers to `accept`: a connection and its peer, or an exception.
pub data Accept : Type 0 where
  accepted : Text × ℕ → Sock → Accept
  timed_out refused : Accept

abbrev answer : Accept → M (ℕ × (Text × ℕ))
answer (accepted addr sock) s =
    (ok (s.next, addr), record (put_sock s.next sock s) { next = s.next + 1 })
answer timed_out s = throw socket_timeout s
answer refused s = throw os_error s

unfoldable pub accept : Accept → M (ℕ × (Text × ℕ))
accept event s = with_main s.self.socket (answer event) s

abbrev set_conn_timeout : ℕ → M (Unit {0})
set_conn_timeout h s = settimeout h s.self.recv_timeout s

unfoldable pub accept_connection : Accept → M (Unit {0})
unfolding listen accept settimeout
accept_connection event = do
  listen
  (h, addr) ← accept event
  assign (λ self. record self { conn = some h; last_client_addr = some addr })
  set_conn_timeout h

unfoldable pub reset_connection_ref : M (Unit {0})
reset_connection_ref = assign (λ self. record self { conn = self.socket })

abbrev pub is_open_ref : Option ℕ → State → Bool
is_open_ref none s = false
is_open_ref (some h) s = (s.os h).is_open

-- The `connected` property.
unfoldable pub is_connected : State → Bool
is_connected s = not (same_ref s.self.conn s.self.socket) && is_open_ref s.self.conn s
