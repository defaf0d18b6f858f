-- ===== src/JsonClient.antt =====
-- jsocket/jsocket_base.py: `JsonClient`, which connects with up to ten attempts.
pub mod Connects
use python_json_socket.Prelude.{
  ℕ, zero, suc, ◌+◌, ◌-◌, Bool, true, false, not, ◌&&◌, ◌||◌, Option, none, some, Text, pos,
  if◌then◌else◌,
}
use python_json_socket.Framing.{default_max_message_size}
use python_json_socket.JsonSocket.{
  State, M, Result, ok, raise, pure, throw, assign, settimeout, new_socket, continue, ◌>>=◌, ◌>>◌,
}
use python_json_socket.JsonSocket.Close.{close_socket}
use python_json_socket.JsonSocket.Init.{Args, init}

abbrev settimeout_main : M (Unit {0})
settimeout_main s = elim s.self.socket [
  | none ↦ (ok tt, s)
  | some k ↦ settimeout k s.self.recv_timeout s
]

-- `JsonClient.__init__`
unfoldable pub init_client : Text → ℕ → Option ℕ → Option ℕ → M (Unit {0})
unfolding init settimeout
init_client address port timeout recv_timeout = do
  init (record {
    address = address;
    port = port;
    timeout = timeout;
    max_message_size = some (pos default_max_message_size);
    accept_timeout = none;
    recv_timeout = recv_timeout;
    create_socket = true;
  })
  settimeout_main

abbrev close_main : M (Unit {0})
close_main s = (ok tt, close_socket s)

-- `_recreate_socket`
unfoldable pub recreate_socket : M (Unit {0})
unfolding close_socket new_socket settimeout
recreate_socket = do
  close_main
  h ← new_socket
  assign (λ self. record self { socket = some h })
  settimeout_main
  assign (λ self. record self { conn = self.socket })

-- `sock is None or sock.fileno() == -1`
abbrev pub needs_fresh_socket : State → Bool
needs_fresh_socket s = elim s.self.socket [ none ↦ true | some k ↦ not (s.os k).is_open ]

abbrev refresh : M (Unit {0})
refresh s = if needs_fresh_socket s then recreate_socket s else (ok tt, s)

-- `time.sleep(3)`
abbrev sleep_three : M (Unit {0})
sleep_three s = (ok tt, record s { slept = s.slept + 3 })

-- `for attempt in range(1, 11)`, by the attempts left; `reaches` says which attempts the operating
-- system lets succeed.
unfoldable pub connect_loop : (ℕ → Bool) → ℕ → ℕ → M Bool
connect_loop reaches attempt zero s = (ok false, s)
connect_loop reaches attempt (suc left) s =
    let again : M Bool =
      recreate_socket >> (sleep_three >> connect_loop reaches (attempt + 1) left) in
    let m : M Bool =
      refresh >> (if reaches attempt then (settimeout_main >> pure true) else again) in
    m s

unfoldable pub connect : (ℕ → Bool) → M Bool
unfolding connect_loop recreate_socket
connect reaches = connect_loop reaches 1 10
