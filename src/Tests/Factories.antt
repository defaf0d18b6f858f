-- ===== src/Tests/Factories.antt =====
-- A factory on concrete data, and the theorems at these data.
use python_json_socket.Tests.Servers.{at}
use python_json_socket.ServerFactory.{Worker}
use python_json_socket.Dict.{Dict}
use python_json_socket.Stats.{ClientStats, Tracker, new_client_stats}
use python_json_socket.Prelude.{
  ℕ, arith, ◌≡◌, refl, true, false, [], ◌∷◌, none, some, codes, arith, inl,
}
use python_json_socket.JsonSocket.{State, ok}
use python_json_socket.JsonSocket.Init.{blank}
use python_json_socket.ServerFactory.{get_num_of_active_threads}
use python_json_socket.ServerFactory.Init.{Kwargs, thread_args, init_factory, init_factory-timeouts}
use python_json_socket.ServerFactory.Run.{Operation, Pass, run_passes, run}
use python_json_socket.ServerFactory.Run.Owned.{IsTidy, IsPlain}
use python_json_socket.ServerFactory.Run.Exit.{IsLeft, run-IsLeft}
use python_json_socket.ServerFactory.Stopping.{Round, Running}
use python_json_socket.ServerFactory.Stopping.Ends.{Stops, OnlyCounts, stop_all-Stops}
use python_json_socket.Tests.{client_with, server_state}
use python_json_socket.Tests.Servers.{attempt}
use python_json_socket.Tests.Totals.{factory, worker}

-- A factory that waits on socket 0, and a pass in which a connection comes after one that fails.
abbrev idle_state : State
idle_state = record server_state { self = record server_state.self { conn = some 0 } }

abbrev idle : Operation
idle = record { sock = idle_state; factory = record { threads = []; archive = [] }; spawned = [] }

idle-IsTidy : IsTidy 0 idle_state idle
idle-IsTidy = record {
  listening = record {
    bound = record {
      server = refl;
      main = refl;
      open_main = refl;
      accept = refl;
      free = omega arith;
    };
    no_conn = refl;
  };
  owned = λ i up. inl up;
}

attempt-IsPlain : IsPlain attempt
attempt-IsPlain = record { creates_none = refl; arrives_open = refl }

aborted-IsPlain : IsPlain (record attempt { starts = false })
aborted-IsPlain = record { creates_none = refl; arrives_open = refl }

abbrev pass : Pass
pass = record {
  is_alive = λ i. true;
  attempts = (7, record attempt { starts = false }) ∷ (7, attempt) ∷ [];
}

run-IsLeft_example :
    (after : Operation) × (run (pass ∷ []) ((λ i. true) ∷ (λ i. false) ∷ []) idle ≡ some after)
    × IsLeft 0 idle_state after
unfolding get_num_of_active_threads run_passes
run-IsLeft_example =
    run-IsLeft 0 idle_state (pass ∷ []) ((λ i. true) ∷ []) (λ i. false) idle
      ((aborted-IsPlain, (attempt-IsPlain, tt)), tt) idle-IsTidy refl

-- The worker has the second connection; the first was closed.
spawned_one :
    (((run_passes (pass ∷ []) idle).sock.os 2).is_open ≡ false)
    × (((run_passes (pass ∷ []) idle).sock.os 3).is_open ≡ true)
unfolding run_passes
spawned_one = (refl, refl)

-- Four workers, one with a client that is connected; a new one arrives while they are joined.
abbrev serving : Worker
serving = record (worker 5 false) {
  stats =
      (codes "ab", record (new_client_stats (codes "ab")) { connected = true; connects = 1 }) ∷ [];
}

abbrev running : Running
running = record {
  factory = record factory { threads = serving ∷ factory.threads };
  is_alive = λ i. true;
}

-- Nothing more arrives for the worker of client "ab", which is told to stop.
abbrev still_serving : ℕ → Dict ClientStats → Tracker
still_serving i d = record {
  client_stats = d;
  active_client_id = some (codes "ab");
  client_id = some (codes "ab");
  client_started_at = some 1;
}

abbrev arrival : Round
arrival = record {
  ends = λ i. false;
  arrivals = worker 4 false ∷ [];
  served = still_serving;
  finish = λ i. at 9;
}

abbrev quiet : Round
quiet = record arrival { arrivals = [] }

arrival-OnlyCounts : OnlyCounts arrival
arrival-OnlyCounts c i d = omega arith

quiet-OnlyCounts : OnlyCounts quiet
quiet-OnlyCounts c i d = omega arith

stop_all-Stops_example : Stops (arrival ∷ quiet ∷ []) running
stop_all-Stops_example =
    stop_all-Stops (arrival ∷ []) quiet running (arrival-OnlyCounts, tt) quiet-OnlyCounts refl

abbrev kwargs : Kwargs
kwargs = record {
  address = some (codes "0.0.0.0");
  port = some 5490;
  timeout = none;
  accept_timeout = some none;
  recv_timeout = some (some 9);
  max_message_size = none;
}

init_factory-timeouts_example :
    ((init_factory 2 true true kwargs (client_with [])).0 ≡ ok (thread_args 2 kwargs))
    × ((blank (thread_args 2 kwargs)).timeout
        ≡ (init_factory 2 true true kwargs (client_with [])).1.self.timeout)
    × ((blank (thread_args 2 kwargs)).recv_timeout
        ≡ (init_factory 2 true true kwargs (client_with [])).1.self.recv_timeout)
    × ((blank (thread_args 2 kwargs)).accept_timeout ≡ some 2)
init_factory-timeouts_example =
    init_factory-timeouts 2 kwargs (codes "0.0.0.0") 5490 (client_with []) refl refl
