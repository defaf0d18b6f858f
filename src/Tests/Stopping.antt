-- ===== src/Tests/Stopping.antt =====
-- Interleavings of a server's thread and its caller, and the theorems at these.
use python_json_socket.Prelude.{◌≡◌, ◌≢◌, refl, true, false, [], ◌∷◌, none, some, arith}
use python_json_socket.ThreadedServer.Lifecycle.{
  Caller, running, stopped, Pc, testing, selecting, ended, Life, quiet, arrives, fails, caller_step,
  server_step, serve, Reach, here, later, call, work,
}
use python_json_socket.ThreadedServer.Lifecycle.Stopped.{IsRunning}
use python_json_socket.ThreadedServer.Lifecycle.Ends.{stop_ends, stop_undone, steps_left}

-- A server that waits for a connection.
abbrev waits : Life
waits = record {
  is_alive = true;
  wakeup = 0;
  caller = running;
  pc = selecting;
  accept_timeout = some 2;
  recv_timeout = some 2;
}

waits-IsRunning : IsRunning waits
waits-IsRunning = record {
  caller = refl;
  past = tt;
  timed = record { accepts = λ e. cc e; reads = λ e. cc e };
}

-- `stop` clears the flag and signals, while a connection arrives in between.
abbrev told : Life
told = record waits { is_alive = false; wakeup = 1; caller = stopped; pc = Pc.accepting }

waits-told : Reach waits told
unfolding caller_step server_step
waits-told = later (later (later here (call refl)) (work arrives refl)) (call refl)

stop_ends_example :
    (told.is_alive ≡ false) × ((serve (arrives ∷ arrives ∷ quiet ∷ quiet ∷ []) told).pc ≡ ended)
unfolding steps_left
stop_ends_example =
    stop_ends waits told (arrives ∷ arrives ∷ quiet ∷ quiet ∷ []) waits-IsRunning waits-told refl
      (omega arith)

-- A server whose thread has started, but has not come to `run`.
abbrev begun : Life
begun = record waits { pc = testing }

abbrev told_early : Life
told_early = record begun { is_alive = false; wakeup = 1; caller = stopped }

-- `run` tests the flag between the two steps of `stop`, and sets it before the other.
abbrev clears_early : Life
clears_early = record begun { is_alive = false; caller = Caller.cleared }

abbrev set_again : Life
set_again = record clears_early { pc = Pc.head; is_alive = true; wakeup = 1; caller = stopped }

clears_early-set_again : Reach clears_early set_again
unfolding caller_step server_step
clears_early-set_again = later (later (later here (work quiet refl)) (call refl)) (work quiet refl)

stop_undone_example : (serve (quiet ∷ quiet ∷ fails ∷ []) set_again).pc ≢ ended
unfolding caller_step
stop_undone_example =
    stop_undone begun clears_early set_again (quiet ∷ quiet ∷ fails ∷ []) refl refl refl
      clears_early-set_again

-- It takes the wakeup, and then waits for ever.
lost_stop :
    server_step quiet (
      serve
        (quiet ∷ quiet ∷ quiet ∷ quiet ∷ quiet ∷ quiet ∷ quiet ∷ quiet ∷ quiet ∷ quiet ∷ quiet ∷ [])
        told_early)
    ≡ none
unfolding server_step
lost_stop = refl
