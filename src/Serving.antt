-- ===== src/Serving.antt =====
-- jsocket/tserver.py: one pass through the loop that `ThreadedServer._handle_client_messages` and
-- `ServerFactoryThread.run` share: read, note, process, reply.
pub mod Replies
use python_json_socket.Prelude.{Bool, true, false, Option, none, some, Text, codes}
use python_json_socket.Codec.{Codec, Value}
use python_json_socket.JsonSocket.{State, Result, ok, raise, Exc, framing, broken, socket_timeout}
use python_json_socket.JsonSocket.Write.{send_obj}
use python_json_socket.JsonSocket.Message.{read_obj}
use python_json_socket.Stats.{Tracker, Now, note_failure, note_message_in, note_message_out}
use python_json_socket.Stats.Failures.{note_framing_failure}
use python_json_socket.Stats.Identity.{extract_client_id, set_client_identity}

-- The object's sockets and its statistics.
pub record Server : Type 0 where
  pub sock : State
  pub stats : Tracker

-- One pass: the clocks as they are read in it, and what `_process_message` does with an object in
-- it, which is to return a response or `None`, or to raise. Before that it may set the identity of
-- the client by `_set_client_identity`, as `EchoWorker` does.
pub record Turn : Type 0 where
  pub at_read : Now
  pub at_reply : Now
  pub process : Value → Result (Option Value)
  pub identifies : Value → Option Text

-- `except socket.timeout`, `except FramingError` and `except Exception` around `read_obj`.
abbrev pub note_read_error : Exc → Tracker → Tracker
note_read_error socket_timeout t = note_failure (codes "timeout") t
note_read_error (framing error) t = note_framing_failure error t
note_read_error broken t = t
note_read_error other t = note_failure (codes "handler") t

-- Only a timeout lets the loop go on.
abbrev pub goes_on : Exc → Bool
goes_on socket_timeout = true
goes_on other = false

abbrev pub identify : Option Text → Tracker → Tracker
identify none t = t
identify (some client_id) t = set_client_identity client_id t

abbrev pub note_reply : Now → Result (Unit {0}) × State → Tracker → Bool × Server
note_reply now (ok done, s) t =
    (true, record { sock = s; stats = note_message_out s.self.last_send_size now t })
note_reply now (raise e, s) t =
    (false, record { sock = s; stats = note_failure (codes "bad_write") t })

abbrev pub reply : Codec → Now → Result (Option Value) → State → Tracker → Bool × Server
reply c now (raise e) s t = (false, record { sock = s; stats = note_failure (codes "handler") t })
reply c now (ok none) s t = (true, record { sock = s; stats = t })
reply c now (ok (some response)) s t = note_reply now (send_obj c response s) t

module _ (repr : Value → Text) (c : Codec) where
  abbrev pub after_read : Turn → Result Value × State → Tracker → Bool × Server
  after_read turn (raise e, s) t = (goes_on e, record { sock = s; stats = note_read_error e t })
  after_read turn (ok obj, s) t = reply c turn.at_reply (turn.process obj) s (
      identify (turn.identifies obj) (
        note_message_in s.self.last_read_size turn.at_read
          (identify (extract_client_id repr obj) t)))

  -- Whether the loop goes on, and the state then.
  unfoldable pub serve_turn : Turn → Server → Bool × Server
  serve_turn turn sv = after_read turn (read_obj c sv.sock) sv.stats
