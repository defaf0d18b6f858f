-- ===== src/JsonSocket/Init.antt =====
-- `JsonSocket.__init__`
use python_json_socket.Prelude.{ℕ, ℤ, Bool, true, false, Option, none, some, Text}
use python_json_socket.JsonSocket.{JsonSocket, M, pure, assign, settimeout, new_socket, ◌>>=◌, ◌>>◌}
use python_json_socket.JsonSocket.Timeouts.{set_max_message_size}

-- The arguments. `timeout` itself may be `None`; the other two stand for it where they are `None`.
pub record Args : Type 0 where
  pub address : Text
  pub port : ℕ
  pub timeout : Option ℕ
  pub max_message_size : Option ℤ
  pub accept_timeout : Option ℕ
  pub recv_timeout : Option ℕ
  pub create_socket : Bool

-- `timeout if t is None else t`
abbrev pub or_timeout : Option ℕ → Option ℕ → Option ℕ
or_timeout none timeout = timeout
or_timeout (some t) timeout = some t

abbrev pub blank : Args → JsonSocket
blank a = record {
  socket = none;
  conn = none;
  timeout = a.timeout;
  accept_timeout = or_timeout a.accept_timeout a.timeout;
  recv_timeout = or_timeout a.recv_timeout a.timeout;
  address = a.address;
  port = a.port;
  max_message_size = none;
  last_client_addr = none;
  is_server = false;
  is_listening = false;
  last_read_size = none;
  last_send_size = none;
}

-- `self.socket = socket.socket(...)`, `self.conn = self.socket` and the timeout of both.
abbrev create : Bool → M (Unit {0})
create false s = pure tt s
create true s =
    let m : M (Unit {0}) = new_socket >>= λ h.
    assign (λ self. record self { socket = some h; conn = some h })
    >> settimeout h s.self.accept_timeout in
    m s

unfoldable pub init : Args → M (Unit {0})
unfolding set_max_message_size new_socket settimeout
init a = do assign (λ _. blank a); set_max_message_size a.max_message_size; create a.create_socket
