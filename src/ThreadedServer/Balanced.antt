-- ===== src/ThreadedServer/Balanced.antt =====
-- The statistics of a `ThreadedServer` are balanced whenever no client is served.
use python_json_socket.Prelude.{Bool, true, false, List, [], ◌∷◌, Option, none, some, Text}
use python_json_socket.Codec.{Codec, Value}
use python_json_socket.JsonSocket.{State, Result, ok, raise, Exc, framing, broken, socket_timeout}
use python_json_socket.JsonSocket.Write.{send_obj}
use python_json_socket.JsonSocket.Message.{read_obj}
use python_json_socket.JsonServer.{accept_connection}
use python_json_socket.Stats.{Tracker, Now}
use python_json_socket.Stats.Failures.{note_framing_failure}
use python_json_socket.Stats.Identity.{extract_client_id}
use python_json_socket.Stats.Balanced.{IsIdle, IsBusy}
use python_json_socket.Stats.Balanced.Moved.{set_client_identity-IsBusy}
use python_json_socket.Stats.Balanced.Served.{
  note_message_in-IsBusy, note_message_out-IsBusy, note_failure-IsBusy, record_client_start-IsBusy,
  leave-IsIdle,
}
use python_json_socket.Serving.{
  Server, Turn, note_read_error, identify, note_reply, reply, after_read, serve_turn,
}
use python_json_socket.ThreadedServer.{
  Threaded, Visit, accept_client, accept_waited, started, wait_for_accept, message_loop, next_turn,
  handle_client_messages, serve_accepted, serve_visits, run,
}

note_framing_failure-IsBusy :
    (error : _) (t : Tracker) → IsBusy t → IsBusy (note_framing_failure error t)
unfolding note_framing_failure
note_framing_failure-IsBusy error t b = note_failure-IsBusy _ t b

note_read_error-IsBusy : (e : Exc) (t : Tracker) → IsBusy t → IsBusy (note_read_error e t)
note_read_error-IsBusy socket_timeout t b = note_failure-IsBusy _ t b
note_read_error-IsBusy (framing error) t b = note_framing_failure-IsBusy error t b
note_read_error-IsBusy broken t b = b
note_read_error-IsBusy other t b = note_failure-IsBusy _ t b

identify-IsBusy : (o : Option Text) (t : Tracker) → IsBusy t → IsBusy (identify o t)
identify-IsBusy none t b = b
identify-IsBusy (some id) t b = set_client_identity-IsBusy id t b

note_reply-IsBusy :
    (now : Now) (r : Result (Unit {0}) × State) (t : Tracker)
    → IsBusy t
    → IsBusy (note_reply now r t).1.stats
note_reply-IsBusy now (ok done, s) t b = note_message_out-IsBusy _ now t b
note_reply-IsBusy now (raise e, s) t b = note_failure-IsBusy _ t b

reply-IsBusy :
    (c : Codec) (now : Now) (r : Result (Option Value)) (s : State) (t : Tracker)
    → IsBusy t
    → IsBusy (reply c now r s t).1.stats
reply-IsBusy c now (raise e) s t b = note_failure-IsBusy _ t b
reply-IsBusy c now (ok none) s t b = b
reply-IsBusy c now (ok (some response)) s t b = note_reply-IsBusy now (send_obj c response s) t b

module _ (repr : Value → Text) (c : Codec) where
  after_read-IsBusy :
      (turn : Turn) (r : Result Value × State) (t : Tracker)
      → IsBusy t
      → IsBusy (after_read repr c turn r t).1.stats
  after_read-IsBusy turn (raise e, s) t b = note_read_error-IsBusy e t b
  after_read-IsBusy turn (ok obj, s) t b = reply-IsBusy c turn.at_reply (turn.process obj) s _ (
      identify-IsBusy (turn.identifies obj) _ (
        note_message_in-IsBusy s.self.last_read_size turn.at_read _
          (identify-IsBusy (extract_client_id repr obj) t b)))

  pub serve_turn-IsBusy :
      (turn : Turn) (sv : Server) → IsBusy sv.stats → IsBusy (serve_turn repr c turn sv).1.stats
  unfolding serve_turn
  serve_turn-IsBusy turn sv b = after_read-IsBusy turn (read_obj c sv.sock) sv.stats b

  next_turn-IsBusy :
      (next : Server → Server) (r : Bool × Server)
      → ((sv : Server) → IsBusy sv.stats → IsBusy (next sv).stats)
      → IsBusy r.1.stats
      → IsBusy (next_turn repr c next r).stats
  next_turn-IsBusy next (true, sv) h b = h sv b
  next_turn-IsBusy next (false, sv) h b = b

  pub message_loop-IsBusy :
      (turns : List Turn) (sv : Server)
      → IsBusy sv.stats
      → IsBusy (message_loop repr c turns sv).stats
  unfolding message_loop
  message_loop-IsBusy [] sv b = b
  message_loop-IsBusy (turn ∷ turns) sv b =
      next_turn-IsBusy (message_loop repr c turns) (serve_turn repr c turn sv)
        (message_loop-IsBusy turns) (serve_turn-IsBusy turn sv b)

  handle_client_messages-IsIdle :
      (turns : List Turn) (finish : Now) (sv : Server)
      → IsBusy sv.stats
      → IsIdle (handle_client_messages repr c turns finish sv).stats
  unfolding handle_client_messages
  handle_client_messages-IsIdle turns finish sv b =
      leave-IsIdle finish _ (message_loop-IsBusy turns sv b)

  -- After `_accept_client`: the client is being served, or there is none.
  abbrev pub Accepted : Bool × Server → Type 0
  Accepted (true, sv) = IsBusy sv.stats
  Accepted (false, sv) = IsIdle sv.stats

  started-Accepted :
      (v : Visit) (r : Result (Unit {0}) × State) (t : Tracker)
      → IsIdle t
      → Accepted (started v r t)
  started-Accepted v (raise e, s) t i = i
  started-Accepted v (ok done, s) t i = record_client_start-IsBusy _ v.start t i

  accept_waited-Accepted :
      (v : Visit) (r : Bool × State) (t : Tracker) → IsIdle t → Accepted (accept_waited v r t)
  accept_waited-Accepted v (false, s) t i = i
  accept_waited-Accepted v (true, s) t i = started-Accepted v (accept_connection v.event s) t i

  pub accept_client-Accepted :
      (v : Visit) (sv : Server) → IsIdle sv.stats → Accepted (accept_client v sv)
  unfolding accept_client
  accept_client-Accepted v sv i =
      accept_waited-Accepted v (wait_for_accept v.wait sv.sock) sv.stats i

  serve_accepted-IsIdle :
      (v : Visit) (r : Bool × Server) → Accepted r → IsIdle (serve_accepted repr c v r).stats
  serve_accepted-IsIdle v (false, sv) i = i
  serve_accepted-IsIdle v (true, sv) b = handle_client_messages-IsIdle v.turns v.finish sv b

  pub serve_visits-IsIdle :
      (visits : List Visit) (sv : Server)
      → IsIdle sv.stats
      → IsIdle (serve_visits repr c visits sv).stats
  unfolding serve_visits
  serve_visits-IsIdle [] sv i = i
  serve_visits-IsIdle (v ∷ visits) sv i =
      serve_visits-IsIdle visits (serve_accepted repr c v (accept_client v sv))
        (serve_accepted-IsIdle v (accept_client v sv) (accept_client-Accepted v sv i))

  -- Whatever connections come or fail to, whatever arrives on them, under whatever ids, and however
  -- the handler and the replies fail: when a server that was idle has run, it is idle. No client is
  -- active, and every entry of the statistics has as many disconnects as connects, is not marked as
  -- connected, has no start of a connection, and carries the id under which it is kept.
  pub run_balanced :
      (visits : List Visit) (t : Threaded)
      → IsIdle t.server.stats
      → IsIdle (run repr c visits t).server.stats
  unfolding run
  run_balanced visits t i = serve_visits-IsIdle visits t.server i
