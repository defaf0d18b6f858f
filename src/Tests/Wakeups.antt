-- ===== src/Tests/Wakeups.antt =====
-- Wakeup sockets on concrete data, and the theorems at these data.
use python_json_socket.Prelude.{◌≡◌, refl, true, false, [], ◌∷◌, none, some}
use python_json_socket.Os.{segment, timed_out, fresh_sock}
use python_json_socket.ThreadedServer.Wakeup.{
  Wakeup, Calls, init_wakeup, drain_wakeup, close_wakeup,
}
use python_json_socket.ThreadedServer.Wakeup.Pair.{Paired, init_wakeup-Paired}
use python_json_socket.ThreadedServer.Wakeup.Drained.{drain_wakeup_ends}

-- A process with one socket, which is closed, and a system without socket pairs whose loopback pair
-- fails at its last call.
abbrev before : Wakeup
before = record {
  os = λ i. record (fresh_sock [] []) { is_open = false };
  next = 1;
  reader = none;
  writer = none;
}

abbrev last_fails : Calls
last_fails = record {
  socketpair = false;
  pair_reader = false;
  pair_writer = false;
  listener = true;
  setsockopt = true;
  bind = true;
  listen = true;
  writer = true;
  connect = true;
  accept = true;
  reader_set = true;
  writer_set = false;
}

init_wakeup-Paired_example : Paired before (init_wakeup last_fails before)
init_wakeup-Paired_example = init_wakeup-Paired last_fails before refl

-- Three sockets were created, and all are closed.
all_closed :
    (((init_wakeup last_fails before).os 1).is_open ≡ false)
    × (((init_wakeup last_fails before).os 2).is_open ≡ false)
    × (((init_wakeup last_fails before).os 3).is_open ≡ false)
    × ((init_wakeup last_fails before).next ≡ 4)
unfolding init_wakeup
all_closed = (refl, refl, refl, refl)

-- Two wakeup bytes, in two segments.
abbrev signalled : Wakeup
signalled = record {
  os = λ i. fresh_sock (segment (0 ∷ []) ∷ segment (0 ∷ []) ∷ timed_out ∷ []) [];
  next = 2;
  reader = some 0;
  writer = some 1;
}

drain_wakeup_ends_example : (drain_wakeup 3 signalled).0 ≡ true
drain_wakeup_ends_example = drain_wakeup_ends signalled refl

closed_both :
    (((close_wakeup signalled).os 0).is_open ≡ false)
    × (((close_wakeup signalled).os 1).is_open ≡ false)
unfolding close_wakeup
closed_both = (refl, refl)
