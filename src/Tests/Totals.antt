-- ===== src/Tests/Totals.antt =====
-- The statistics of a factory, their kinds of failure and their keys.
use python_json_socket.Prelude.{
  ℕ, ◌+◌, ◌≡◌, refl, Bool, true, false, [], ◌∷◌, codes, All, ◌==◌, if◌then◌else◌,
}
use python_json_socket.JsonSocket.{oversize}
use python_json_socket.Stats.{ClientStats, new_client_stats}
use python_json_socket.Stats.Count.{messages_in, total, total-rekey_stats_map}
use python_json_socket.Stats.Failures.{message, framing_failure_kind}
use python_json_socket.Stats.Failures.Kinds.{framing_failure_kind-kind_of}
use python_json_socket.Stats.Merge.{rekey_stats_map}
use python_json_socket.Stats.Snapshot.{map_values}
use python_json_socket.ServerFactory.{Worker, Factory, purge_threads, get_client_stats, those}
use python_json_socket.ServerFactory.Totals.{counted, owed}
use python_json_socket.ServerFactory.Counted.{
  grand_total, IsOrdered, ends_between, purge_threads-grand_total, get_client_stats-grand_total,
}

abbrev entry : ClientStats
entry = record (new_client_stats (codes "ab")) { connects = 2; disconnects = 2; messages_in = 5 }

abbrev pub worker : ℕ → Bool → Worker
worker i archived = record { ident = i; stats = (codes "ab", entry) ∷ []; archived = archived }

-- Worker 1 is alive, worker 2 has ended, and worker 3 ends now.
abbrev pub factory : Factory
factory = record { threads = worker 1 false ∷ worker 2 true ∷ worker 3 false ∷ []; archive = [] }

abbrev at_first : ℕ → Bool
at_first i = if i == 2 then false else true

abbrev at_last : ℕ → Bool
at_last i = i == 1

purge_threads-grand_total_example :
    grand_total messages_in (purge_threads at_last factory) ≡ grand_total messages_in factory
purge_threads-grand_total_example = purge_threads-grand_total messages_in at_last factory

factory-IsOrdered : All (IsOrdered at_first at_last) factory.threads
factory-IsOrdered = (
  record { gone = refl; stays = refl },
  (record { gone = refl; stays = refl }, (record { gone = refl; stays = refl }, tt)),
)

get_client_stats-grand_total_example :
    (total messages_in (map_values counted (get_client_stats at_first at_last 7 factory).0.clients)
        + owed messages_in (those (ends_between at_first at_last) factory.threads)
      ≡ grand_total messages_in factory)
    × (grand_total messages_in (get_client_stats at_first at_last 7 factory).1
        ≡ grand_total messages_in factory)
get_client_stats-grand_total_example =
    get_client_stats-grand_total messages_in at_first at_last 7 factory factory-IsOrdered

framing_failure_kind-kind_of_example :
    framing_failure_kind (message (oversize 12 9)) ≡ codes "oversize"
framing_failure_kind-kind_of_example = framing_failure_kind-kind_of (oversize 12 9)

total-rekey_stats_map_example :
    total messages_in (rekey_stats_map ((codes "x", entry) ∷ (codes "y", entry) ∷ []))
    ≡ total messages_in ((codes "x", entry) ∷ (codes "y", entry) ∷ [])
total-rekey_stats_map_example =
    total-rekey_stats_map messages_in ((codes "x", entry) ∷ (codes "y", entry) ∷ [])
