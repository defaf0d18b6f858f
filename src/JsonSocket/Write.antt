-- ===== src/JsonSocket/Write.antt =====
-- `_send` and `send_obj`. The wire holds the header and then the payload.
pub mod Loop
pub mod Half
pub mod Framed
pub mod Outcome
pub mod Sound
use python_json_socket.Prelude.{
  Text, ℕ, zero, suc, ◌+◌, List, [], ◌∷◌, length, drop, Option, none, some, ltb, if◌then◌else◌,
}
use python_json_socket.Framing.{header_of}
use python_json_socket.Codec.{Codec, Value}
use python_json_socket.Os.{Sock, Sent, took, os_error, send}
use python_json_socket.JsonSocket.{
  State, M, Result, ok, raise, broken, attribute_error, type_error, encode_error, struct_error,
  too_large, no_fuel, pure, throw, or_raise, assign, put_sock, ◌>>=◌, ◌>>◌,
}
use python_json_socket.JsonSocket.Close.{close_connection}

-- How the loop of `_send` ends.
pub data WriteExit : Type 0 where
  all_sent refused cut_off : WriteExit

-- An `OSError` and a chunk of 0 bytes end the loop alike; otherwise `sent` grows by the chunk.
abbrev pub write_step : (ℕ → Sock → WriteExit × Sock) → ℕ → Sent × Sock → WriteExit × Sock
write_step next sent (os_error, s) = (refused, s)
write_step next sent (took zero, s) = (refused, s)
write_step next sent (took (suc chunk), s) = next (sent + suc chunk) s

-- `while sent < len(msg)`, on fuel.
unfoldable pub send_loop : ℕ → List ℕ → ℕ → Sock → WriteExit × Sock
send_loop zero msg sent s = (cut_off, s)
send_loop (suc fuel) msg sent s =
    if ltb sent (length msg)
    then write_step (send_loop fuel msg) sent (send (drop sent msg) s)
    else (all_sent, s)

abbrev pub finish_send : WriteExit → State → Result (Unit {0}) × State
finish_send all_sent s = (ok tt, s)
finish_send refused s = (raise broken, close_connection s)
finish_send cut_off s = (raise no_fuel, s)

-- Without a connection the first `self.conn.send` is an `AttributeError`.
abbrev pub send_on : Option ℕ → List ℕ → M (Unit {0})
send_on none [] s = (ok tt, s)
send_on none (b ∷ msg) s = (raise attribute_error, s)
send_on (some h) msg s =
    let (exit, sock) = send_loop (suc (length msg)) msg 0 (s.os h) in
    finish_send exit (put_sock h sock s)

unfoldable pub send_bytes : List ℕ → M (Unit {0})
send_bytes msg s = send_on s.self.conn msg s

-- `len(payload) > self._max_message_size`
abbrev pub check_send_limit : Option ℕ → ℕ → M (Unit {0})
check_send_limit none size s = (ok tt, s)
check_send_limit (some limit) size s =
    if ltb limit size then (raise (too_large size limit), s) else (ok tt, s)

abbrev pub check_send_size : ℕ → M (Unit {0})
check_send_size size s = check_send_limit s.self.max_message_size size s

unfoldable pub send_payload : List ℕ → M (Unit {0})
unfolding send_bytes
send_payload payload = do
  assign (λ self. record self { last_send_size = some (length payload) })
  check_send_size (length payload)
  header ← or_raise struct_error (header_of payload)
  send_bytes header
  send_bytes payload

-- Without a main socket a message is dropped in silence.
abbrev pub send_text : Option ℕ → Codec → Text → M (Unit {0})
send_text none c msg = pure tt
send_text (some h) c msg = or_raise encode_error (c.encode msg) >>= send_payload

unfoldable pub send_obj : Codec → Value → M (Unit {0})
unfolding send_payload
send_obj c obj s = (or_raise type_error (c.dumps obj) >>= send_text s.self.socket c) s
