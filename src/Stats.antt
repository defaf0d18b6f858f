-- ===== src/Stats.antt =====
-- jsocket/tserver.py: the statistics of the clients, and the object that keeps them.
-- Timestamps and durations are natural numbers, ticks of the two clocks.
pub mod Merge
pub mod Identity
pub mod Session
pub mod Balanced
pub mod Failures
pub mod Snapshot
pub mod Count
use python_json_socket.Prelude.{
  ℕ, zero, suc, ◌+◌, ◌-◌, Bool, true, false, List, [], ◌∷◌, Option, none, some, Text, codes,
  text_eq, ◌==◌, ltb, not, if◌then◌else◌,
}
use python_json_socket.Dict.{Dict, lookup, insert, erase}

pub record ClientStats : Type 0 where
  pub client_id : Text
  pub connected : Bool
  pub connects : ℕ
  pub disconnects : ℕ
  pub messages_in : ℕ
  pub messages_out : ℕ
  pub bytes_in : ℕ
  pub bytes_out : ℕ
  pub total_connected_duration : ℕ
  pub failures : Dict ℕ
  pub last_connect_ts : Option ℕ
  pub last_disconnect_ts : Option ℕ
  pub last_message_ts : Option ℕ
  pub connected_since : Option ℕ

-- The attributes of a server or a worker that the statistics use.
pub record Tracker : Type 0 where
  pub client_stats : Dict ClientStats
  pub active_client_id : Option Text
  pub client_id : Option Text
  pub client_started_at : Option ℕ

-- `time.time()` and `time.monotonic()` at one moment.
pub record Now : Type 0 where
  pub wall : ℕ
  pub mono : ℕ

abbrev pub new_failure_counts : Dict ℕ
new_failure_counts =
    (codes "timeout", 0)
    ∷ (codes "bad_write", 0)
    ∷ (codes "bad_crc", 0)
    ∷ (codes "bad_header", 0)
    ∷ (codes "oversize", 0)
    ∷ (codes "invalid_utf8", 0)
    ∷ (codes "invalid_json", 0)
    ∷ (codes "handler", 0)
    ∷ (codes "framing", 0)
    ∷ []

abbrev pub new_client_stats : Text → ClientStats
new_client_stats client_id = record {
  client_id = client_id;
  connected = false;
  connects = 0;
  disconnects = 0;
  messages_in = 0;
  messages_out = 0;
  bytes_in = 0;
  bytes_out = 0;
  total_connected_duration = 0;
  failures = new_failure_counts;
  last_connect_ts = none;
  last_disconnect_ts = none;
  last_message_ts = none;
  connected_since = none;
}

-- `if client_id:`
abbrev pub is_truthy : Option Text → Bool
is_truthy none = false
is_truthy (some []) = false
is_truthy (some (c ∷ s)) = true

unfoldable pub get_active_client_id : Tracker → Option Text
get_active_client_id t = if is_truthy t.active_client_id then t.active_client_id else t.client_id

abbrev pub or_new : Text → Option ClientStats → ClientStats
or_new client_id none = new_client_stats client_id
or_new client_id (some stats) = stats

-- `_get_or_create_stats`, and the writes to the `dict` that it returned.
unfoldable pub update_stats : Text → (ClientStats → ClientStats) → Tracker → Tracker
update_stats client_id change t =
    let stats = or_new client_id (lookup client_id t.client_stats) in
    record t { client_stats = insert client_id (change stats) t.client_stats }

abbrev pub or_since : Option ℕ → ℕ → Option ℕ
or_since none now = some now
or_since (some since) now = some since

abbrev pub mark_connected : Now → ClientStats → ClientStats
mark_connected now stats = record stats {
  connected = true;
  connects = stats.connects + 1;
  last_connect_ts = some now.wall;
  connected_since = or_since stats.connected_since now.mono;
}

-- `if not client_id: client_id = "unknown"`
abbrev pub known : Text → Text
known [] = codes "unknown"
known (c ∷ s) = c ∷ s

unfoldable pub note_connect : Text → Now → Tracker → Tracker
note_connect client_id now t = record (update_stats (known client_id) (mark_connected now) t) {
  active_client_id = some (known client_id);
}

-- The monotonic clock does not go back, so the difference is not negative.
abbrev pub duration_since : Option ℕ → ℕ → ℕ
duration_since none now = 0
duration_since (some since) now = now - since

abbrev pub mark_disconnected : Now → ClientStats → ClientStats
mark_disconnected now stats = record stats {
  connected = false;
  disconnects = stats.disconnects + 1;
  last_disconnect_ts = some now.wall;
  total_connected_duration =
      stats.total_connected_duration + duration_since stats.connected_since now.mono;
  connected_since = none;
}

abbrev pub disconnect_id : Text → Now → Tracker → Tracker
disconnect_id client_id now t =
    if (or_new client_id (lookup client_id t.client_stats)).connected
    then record (update_stats client_id (mark_disconnected now) t) { active_client_id = none }
    else update_stats client_id (λ stats. stats) t

-- `client_id = _get_active_client_id(obj)` and `if not client_id: return` before the rest.
abbrev pub with_active : (Text → Tracker → Tracker) → Option Text → Tracker → Tracker
with_active note none t = t
with_active note (some []) t = t
with_active note (some (c ∷ s)) t = note (c ∷ s) t

unfoldable pub note_disconnect : Now → Tracker → Tracker
note_disconnect now t = with_active (λ id. disconnect_id id now) (get_active_client_id t) t

abbrev pub size_or_zero : Option ℕ → ℕ
size_or_zero none = 0
size_or_zero (some size) = size

abbrev pub count_in : Option ℕ → Now → ClientStats → ClientStats
count_in size now stats = record stats {
  messages_in = stats.messages_in + 1;
  bytes_in = stats.bytes_in + size_or_zero size;
  last_message_ts = some now.wall;
}

unfoldable pub note_message_in : Option ℕ → Now → Tracker → Tracker
note_message_in size now t =
    with_active (λ id. update_stats id (count_in size now)) (get_active_client_id t) t

abbrev pub count_out : Option ℕ → Now → ClientStats → ClientStats
count_out size now stats = record stats {
  messages_out = stats.messages_out + 1;
  bytes_out = stats.bytes_out + size_or_zero size;
  last_message_ts = some now.wall;
}

unfoldable pub note_message_out : Option ℕ → Now → Tracker → Tracker
note_message_out size now t =
    with_active (λ id. update_stats id (count_out size now)) (get_active_client_id t) t

-- `failures[kind] = failures.get(kind, 0) + n`
unfoldable pub add_failures : Text → ℕ → Dict ℕ → Dict ℕ
add_failures kind n failures = insert kind (size_or_zero (lookup kind failures) + n) failures

abbrev pub count_failure : Text → ClientStats → ClientStats
count_failure kind stats = record stats { failures = add_failures kind 1 stats.failures }

unfoldable pub note_failure : Text → Tracker → Tracker
note_failure kind t =
    with_active (λ id. update_stats id (count_failure kind)) (get_active_client_id t) t
