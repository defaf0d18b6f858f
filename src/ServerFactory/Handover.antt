-- ===== src/ServerFactory/Handover.antt =====
-- `ServerFactory.run`: one connection is accepted and handed to a new worker.
pub mod Outcome
pub mod Accepted
use python_json_socket.Prelude.{ℕ, Bool, true, false, Option, none, some, Text, if◌then◌else◌}
use python_json_socket.Os.{shut}
use python_json_socket.JsonSocket.{State, Result, ok, raise, put_sock}
use python_json_socket.JsonSocket.Init.{Args, init}
use python_json_socket.JsonServer.{Accept, accept_connection, reset_connection_ref}
use python_json_socket.Stats.{Now}
use python_json_socket.Serving.{Server}
use python_json_socket.ThreadedServer.{Wait, wait_for_accept}
use python_json_socket.ServerFactoryThread.{new_tracker, swap_socket}

-- One attempt: how the wait ends, what `accept` gives, whether `_is_alive` is still set then, the
-- arguments of the worker, what `getpeername` answers, the clock, and whether the thread starts.
pub record Attempt : Type 0 where
  pub wait : Wait
  pub event : Accept
  pub is_alive : Bool
  pub thread_args : Args
  pub peer : Option (Text × ℕ)
  pub now : Now
  pub starts : Bool

-- `accepted_conn.shutdown(...)` and `accepted_conn.close()`, with their errors passed over.
abbrev pub give_up : ℕ → State → State
give_up h s = put_sock h (shut (s.os h)) s

-- The factory's object, with the sockets as the worker left them.
abbrev pub share : State → State → State
share s worker = record worker { self = s.self }

abbrev pub started : Bool → State → Server → Option Server × State
started true s worker = (some worker, share s worker.sock)
started false s worker = (none, share s worker.sock)

abbrev pub constructed : Attempt → ℕ → State → Result (Unit {0}) × State → Option Server × State
constructed a h s (raise e, worker) = (none, share s worker)
constructed a h s (ok done, worker) =
    started a.starts s (swap_socket h a.peer a.now (record { sock = worker; stats = new_tracker }))

abbrev pub or_give_up : ℕ → Option Server × State → Option Server × State
or_give_up h (none, s) = (none, give_up h s)
or_give_up h (some worker, s) = (some worker, s)

-- The accepted connection `h` goes to a new worker, or is closed.
unfoldable pub hand_over : Attempt → ℕ → State → Option Server × State
unfolding init swap_socket
hand_over a h s =
    if a.is_alive
    then or_give_up h (constructed a h s (init a.thread_args s))
    else (none, give_up h s)

-- `accept_connection` has set `conn`.
abbrev pub hand_over_conn : Attempt → Option ℕ → State → Option Server × State
hand_over_conn a none s = (none, s)
hand_over_conn a (some h) s = hand_over a h s

abbrev pub accepted_by : Attempt → Result (Unit {0}) × State → Option Server × State
accepted_by a (raise e, s) = (none, s)
accepted_by a (ok done, s) = hand_over_conn a s.self.conn (reset_connection_ref s).1

abbrev pub after_wait : Attempt → Bool × State → Option Server × State
after_wait a (false, s) = (none, s)
after_wait a (true, s) = accepted_by a (accept_connection a.event s)

-- One pass of the inner loop of `run`: the worker, if one was started.
unfoldable pub accept_one : Attempt → State → Option Server × State
unfolding wait_for_accept accept_connection reset_connection_ref hand_over
accept_one a s = after_wait a (wait_for_accept a.wait s)
