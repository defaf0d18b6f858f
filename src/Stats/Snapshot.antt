-- ===== src/Stats/Snapshot.antt =====
-- `_format_client_stats` and `get_client_stats` of a `ThreadedServer`.
pub mod Rekeyed
pub mod Connected
use python_json_socket.Prelude.{
  ℕ, suc, ◌+◌, ◌-◌, ◌==◌, Bool, true, [], ◌∷◌, Option, none, some, if◌then◌else◌,
}
use python_json_socket.Dict.{Dict}
use python_json_socket.Stats.{ClientStats, Tracker}
use python_json_socket.Stats.Merge.{clone_client_stats, rekey_stats_map}

-- The entry of one client as it is returned. An average is a fraction.
pub record ClientSnapshot : Type 0 where
  pub stats : ClientStats
  pub avg_payload_in : ℕ × ℕ
  pub avg_payload_out : ℕ × ℕ
  pub connected_duration : ℕ

abbrev pub average : ℕ → ℕ → ℕ × ℕ
average bytes messages = if messages == 0 then (0, 1) else (bytes, messages)

-- `now - since if (connected and since) else 0.0`; a start at 0.0 is false, too.
abbrev pub current_duration : Bool → Option ℕ → ℕ → ℕ
current_duration true (some (suc since)) now = now - suc since
current_duration connected since now = 0

unfoldable pub format_client_stats : ClientStats → ℕ → ClientSnapshot
format_client_stats stats now =
    let current = current_duration stats.connected stats.connected_since now in
    let total = stats.total_connected_duration in
    record {
      stats = record (clone_client_stats stats) {
        total_connected_duration = if stats.connected then total + current else total;
        connected_since = none;
      };
      avg_payload_in = average stats.bytes_in stats.messages_in;
      avg_payload_out = average stats.bytes_out stats.messages_out;
      connected_duration = current;
    }

abbrev pub map_values {ℓ κ} : {V : Type ℓ} {W : Type κ} → (V → W) → Dict V → Dict W
map_values f [] = []
map_values f ((k, v) ∷ d) = (k, f v) ∷ map_values f d

-- `sum(1 for stats in clients.values() if stats.get("connected"))`
unfoldable pub count_connected : Dict ClientSnapshot → ℕ
count_connected [] = 0
count_connected ((k, c) ∷ d) = (if c.stats.connected then 1 else 0) + count_connected d

pub record Snapshot : Type 0 where
  pub connected_clients : ℕ
  pub clients : Dict ClientSnapshot

-- The end of both `get_client_stats`: rekey, format, count.
unfoldable pub snapshot_of : Dict ClientStats → ℕ → Snapshot
unfolding rekey_stats_map format_client_stats count_connected
snapshot_of stats_map now =
    let clients = map_values (λ stats. format_client_stats stats now) (rekey_stats_map stats_map) in
    record { connected_clients = count_connected clients; clients = clients }

unfoldable pub get_client_stats : Tracker → ℕ → Snapshot
unfolding snapshot_of
get_client_stats t now = snapshot_of (map_values clone_client_stats t.client_stats) now
