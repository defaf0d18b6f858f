-- ===== src/ServerFactory/Run.antt =====
-- `ServerFactory.run`: the two loops around the hand-over of a connection, and the exit. What the
-- workers do with their own sockets meanwhile is left out.
pub mod Kept
pub mod Exit
pub mod Owned
use python_json_socket.Prelude.{
  ℕ, Bool, true, false, List, [], ◌∷◌, ◌++◌, Option, none, some, ◌==◌, if◌then◌else◌,
}
use python_json_socket.JsonSocket.{State}
use python_json_socket.JsonSocket.Close.{close}
use python_json_socket.JsonServer.{is_connected}
use python_json_socket.Serving.{Server}
use python_json_socket.ServerFactory.{Worker, Factory, purge_threads, get_num_of_active_threads}
use python_json_socket.ServerFactory.Handover.{Attempt, accept_one}

-- The factory's sockets and statistics, and the workers that it has spawned, in order.
pub record Operation : Type 0 where
  pub sock : State
  pub factory : Factory
  pub spawned : List Server

-- `self._threads.append(tmp)`; `ident` is the number of the thread.
abbrev pub append_thread : ℕ → Server → State → Operation → Operation
append_thread ident w s o =
    let thread : Worker = record {
      ident = ident;
      stats = w.stats.client_stats;
      archived = false;
    } in
    record {
      sock = s;
      factory = record o.factory { threads = o.factory.threads ++ (thread ∷ []) };
      spawned = o.spawned ++ (w ∷ []);
    }

-- A pass of the inner loop that spawned a worker ends it; the others go on.
abbrev pub attempted : (Operation → Operation) → ℕ → Operation → Option Server × State → Operation
attempted next ident o (none, s) = next (record o { sock = s })
attempted next ident o (some w, s) = append_thread ident w s o

-- `while not self.connected and self._is_alive`: the list holds the passes that find it set.
unfoldable pub accept_loop : List (ℕ × Attempt) → Operation → Operation
unfolding accept_one is_connected
accept_loop [] o = o
accept_loop ((ident, a) ∷ attempts) o =
    let next = accept_loop attempts in
    if is_connected o.sock then o else attempted next ident o (accept_one a o.sock)

-- A pass of the outer loop: which threads the purge finds alive, and the passes of the inner one.
pub record Pass : Type 0 where
  pub is_alive : ℕ → Bool
  pub attempts : List (ℕ × Attempt)

unfoldable pub run_passes : List Pass → Operation → Operation
unfolding purge_threads accept_loop
run_passes [] o = o
run_passes (p ∷ passes) o =
    run_passes passes
      (accept_loop p.attempts (record o { factory = purge_threads p.is_alive o.factory }))

-- `_wait_to_exit`, for at most the looks of the list: whether one found no active thread.
unfoldable pub wait_to_exit : List (ℕ → Bool) → Factory → Bool
unfolding get_num_of_active_threads
wait_to_exit [] f = false
wait_to_exit (is_alive ∷ looks) f =
    let rest = wait_to_exit looks f in
    if get_num_of_active_threads is_alive f == 0 then true else rest

-- `none` where it goes on waiting.
unfoldable pub run : List Pass → List (ℕ → Bool) → Operation → Option Operation
unfolding run_passes wait_to_exit close
run passes looks o =
    let left = run_passes passes o in
    if wait_to_exit looks left.factory then some (record left { sock = close left.sock }) else none
