-- ===== src/Stats/Session.antt =====
-- `_record_client_start` and `_clear_client_stats`: the statistics where a client is served.
use python_json_socket.Prelude.{none, some, Text}
use python_json_socket.Stats.{Tracker, Now, note_connect}

-- `_record_client_start`, with the client id that `_format_client_id` gave.
unfoldable pub record_client_start : Text → Now → Tracker → Tracker
unfolding note_connect
record_client_start id now t =
    note_connect id now (record t { client_started_at = some now.mono; client_id = some id })

-- `_clear_client_stats`
unfoldable pub clear_client_stats : Tracker → Tracker
clear_client_stats t = record t {
  client_started_at = none;
  client_id = none;
  active_client_id = none;
}
