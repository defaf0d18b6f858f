-- ===== src/Stats/Merge.antt =====
-- `_max_ts`, `_clone_client_stats`, `_merge_client_stats` and `_rekey_stats_map`.
use python_json_socket.Prelude.{
  ℕ, ◌+◌, Bool, true, false, [], ◌∷◌, Option, none, some, Text, ltb, if◌then◌else◌,
}
use python_json_socket.Dict.{Dict, lookup, insert}
use python_json_socket.Stats.{ClientStats, add_failures}

abbrev pub max_ts : Option ℕ → Option ℕ → Option ℕ
max_ts none right = right
max_ts (some left) none = some left
max_ts (some left) (some right) = if ltb left right then some right else some left

-- A copy, down to the dict of failures.
abbrev pub clone_client_stats : ClientStats → ClientStats
clone_client_stats stats = record stats { failures = stats.failures }

-- `for key, value in src.items(): dest[key] = dest.get(key, 0) + value`
unfoldable pub merge_failures : Dict ℕ → Dict ℕ → Dict ℕ
merge_failures dest [] = dest
merge_failures dest ((kind, n) ∷ src) = merge_failures (add_failures kind n dest) src

-- The start of the connection that has lasted longer, where `src` is connected.
abbrev pub merge_since : Bool → Option ℕ → Option ℕ → Option ℕ
merge_since false dest src = dest
merge_since true none src = src
merge_since true (some dest) none = some dest
merge_since true (some dest) (some src) = if ltb src dest then some src else some dest

unfoldable pub merge_client_stats : ClientStats → ClientStats → ClientStats
merge_client_stats dest src = record dest {
  connects = dest.connects + src.connects;
  disconnects = dest.disconnects + src.disconnects;
  messages_in = dest.messages_in + src.messages_in;
  messages_out = dest.messages_out + src.messages_out;
  bytes_in = dest.bytes_in + src.bytes_in;
  bytes_out = dest.bytes_out + src.bytes_out;
  total_connected_duration = dest.total_connected_duration + src.total_connected_duration;
  failures = merge_failures dest.failures src.failures;
  last_connect_ts = max_ts dest.last_connect_ts src.last_connect_ts;
  last_disconnect_ts = max_ts dest.last_disconnect_ts src.last_disconnect_ts;
  last_message_ts = max_ts dest.last_message_ts src.last_message_ts;
  connected = if src.connected then true else dest.connected;
  connected_since = merge_since src.connected dest.connected_since src.connected_since;
}

-- `stats.get("client_id") or client_id`
abbrev pub id_or : Text → Text → Text
id_or [] client_id = client_id
id_or (c ∷ s) client_id = c ∷ s

-- One entry of the map goes under its key: merged into what is there, or copied.
abbrev pub rekey_entry : Text → ClientStats → Option ClientStats → ClientStats
rekey_entry key stats none = record (clone_client_stats stats) { client_id = key }
rekey_entry key stats (some there) = merge_client_stats there stats

unfoldable pub rekey_loop : Dict ClientStats → Dict ClientStats → Dict ClientStats
rekey_loop rekeyed [] = rekeyed
rekey_loop rekeyed ((client_id, stats) ∷ stats_map) =
    let key = id_or stats.client_id client_id in
    rekey_loop (insert key (rekey_entry key stats (lookup key rekeyed)) rekeyed) stats_map

unfoldable pub rekey_stats_map : Dict ClientStats → Dict ClientStats
unfolding rekey_loop
rekey_stats_map stats_map = rekey_loop [] stats_map
