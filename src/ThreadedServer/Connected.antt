-- ===== src/ThreadedServer/Connected.antt =====
-- What `get_client_stats` of a `ThreadedServer` says of the connected clients.
use mathlib.Core.Path.{subst}
use python_json_socket.Prelude.{ℕ, ◌≡◌, true, List, Text}
use python_json_socket.Codec.{Codec, Value}
use python_json_socket.Stats.Balanced.{IsIdle}
use python_json_socket.Stats.Snapshot.{get_client_stats}
use python_json_socket.Stats.Snapshot.Connected.{connected_clients-IsIdle, connected_clients-IsBusy}
use python_json_socket.Serving.{Server, Turn}
use python_json_socket.ThreadedServer.{Visit, accept_client, message_loop, serve_visits}
use python_json_socket.ThreadedServer.Balanced.{
  Accepted, accept_client-Accepted, message_loop-IsBusy, serve_visits-IsIdle,
}

module _ (repr : Value → Text) (c : Codec) where
  -- A server that was idle has served any clients and then accepts one: `get_client_stats` counts 0
  -- connected clients before, and 1 from then on, after any passes of the message loop.
  pub accept_client-connected :
      (visits : List Visit) (v : Visit) (turns : List Turn) (now : ℕ) (sv served : Server)
      → IsIdle sv.stats
      → accept_client v (serve_visits repr c visits sv) ≡ (true, served)
      → ((get_client_stats (serve_visits repr c visits sv).stats now).connected_clients ≡ 0)
        × ((get_client_stats (message_loop repr c turns served).stats now).connected_clients ≡ 1)
  accept_client-connected visits v turns now sv served idle accepts =
      let before = serve_visits-IsIdle repr c visits sv idle in
      let here =
        subst (Accepted repr c) accepts
          (accept_client-Accepted repr c v (serve_visits repr c visits sv) before) in
      (
        connected_clients-IsIdle now _ before,
        connected_clients-IsBusy now _ (message_loop-IsBusy repr c turns served here),
      )
