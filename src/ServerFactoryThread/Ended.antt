-- ===== src/ServerFactoryThread/Ended.antt =====
-- What a `ServerFactoryThread` leaves when it has run.
use python_json_socket.Prelude.{ℕ, ◌≡◌, refl, Bool, true, false, List, [], ◌∷◌, Option, some, Text}
use python_json_socket.Dict.{lookup}
use python_json_socket.Codec.{Codec, Value}
use python_json_socket.Stats.{ClientStats, Now}
use python_json_socket.Stats.Session.{clear_client_stats}
use python_json_socket.Stats.Balanced.{IsIdle, IsBusy, IsRested}
use python_json_socket.Stats.Balanced.Served.{record_client_start-IsBusy, leave-IsIdle}
use python_json_socket.Serving.{Server, Turn, serve_turn}
use python_json_socket.ThreadedServer.Balanced.{serve_turn-IsBusy}
use python_json_socket.ServerFactoryThread.{new_tracker, swap_socket, next_turn, work_loop, run}

new_tracker-IsIdle : IsIdle new_tracker
unfolding lookup
new_tracker-IsIdle = record { no_active = refl; no_client = refl; keys = tt; rested = λ k e l. cc }

module _ (repr : Value → Text) (c : Codec) where
  next_turn-IsBusy :
      (next : Server → Server) (r : Bool × Server)
      → ((sv : Server) → IsBusy sv.stats → IsBusy (next sv).stats)
      → IsBusy r.1.stats
      → IsBusy (next_turn repr c next r).stats
  next_turn-IsBusy next (true, sv) h b = h sv b
  next_turn-IsBusy next (false, sv) h b = b

  work_loop-IsBusy :
      (turns : List Turn) (sv : Server) → IsBusy sv.stats → IsBusy (work_loop repr c turns sv).stats
  unfolding work_loop
  work_loop-IsBusy [] sv b = b
  work_loop-IsBusy (turn ∷ turns) sv b =
      next_turn-IsBusy (work_loop repr c turns) (serve_turn repr c turn sv) (work_loop-IsBusy turns)
        (serve_turn-IsBusy repr c turn sv b)

  -- Every entry of a worker that was given a connection and has run, whatever it met, is of a client
  -- that has left: as many disconnects as connects, not marked as connected, and kept under the id
  -- that it carries.
  pub run-IsRested :
      (new_sock : ℕ) (peer : Option (Text × ℕ)) (start finish : Now) (turns : List Turn)
      (sv : Server)
      → sv.stats ≡ new_tracker
      → (k : Text) (e : ClientStats)
      → lookup k (run repr c turns finish (swap_socket new_sock peer start sv)).stats.client_stats
        ≡ some e
      → IsRested k e
  unfolding run swap_socket clear_client_stats
  run-IsRested new_sock peer start finish turns sv fresh =
      let idle : IsIdle sv.stats = rw fresh new_tracker-IsIdle in
      (leave-IsIdle finish _
        (work_loop-IsBusy turns _ (record_client_start-IsBusy _ start sv.stats idle))).rested
