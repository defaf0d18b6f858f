-- ===== src/ServerFactory.antt =====
-- jsocket/tserver.py: the statistics of a `ServerFactory`, over its worker threads and the archive
-- of those that have ended. Whether a thread is alive is asked of the environment at each
-- `is_alive`, by the thread's number.
pub mod Totals
pub mod Counted
pub mod Handover
pub mod Init
pub mod Run
pub mod Stopping
use python_json_socket.Prelude.{
  ℕ, ◌+◌, Bool, true, false, not, List, [], ◌∷◌, Option, none, some, Text, length, if◌then◌else◌,
}
use python_json_socket.Dict.{Dict, lookup, insert}
use python_json_socket.Stats.{ClientStats}
use python_json_socket.Stats.Merge.{clone_client_stats, merge_client_stats}
use python_json_socket.Stats.Snapshot.{Snapshot, snapshot_of, map_values}

-- A `ServerFactoryThread`, its `_client_stats` and its `_stats_archived`.
pub record Worker : Type 0 where
  pub ident : ℕ
  pub stats : Dict ClientStats
  pub archived : Bool

pub record Factory : Type 0 where
  pub threads : List Worker
  pub archive : Dict ClientStats

-- `_get_client_stats_internal`: copies of the entries.
unfoldable pub stats_from_thread : Worker → Dict ClientStats
stats_from_thread w = map_values clone_client_stats w.stats

abbrev pub add_entry : ClientStats → Option ClientStats → ClientStats
add_entry stats none = clone_client_stats stats
add_entry stats (some there) = merge_client_stats there stats

-- The entries of one map go into another.
unfoldable pub combine : Dict ClientStats → Dict ClientStats → Dict ClientStats
combine dest [] = dest
combine dest ((client_id, stats) ∷ src) =
    combine (insert client_id (add_entry stats (lookup client_id dest)) dest) src

-- A dead thread is not marked as connected in the archive.
abbrev pub mark_gone : ClientStats → ClientStats
mark_gone stats = record stats { connected = false; connected_since = none }

unfoldable pub archive_thread_stats : Worker → Dict ClientStats → Worker × Dict ClientStats
unfolding combine stats_from_thread
archive_thread_stats w archive = if w.archived then (w, archive) else (
  record w { archived = true },
  combine archive (map_values mark_gone (stats_from_thread w)),
)

-- `[t for t in threads if ...]`
abbrev pub those : (ℕ → Bool) → List Worker → List Worker
those test [] = []
those test (w ∷ ws) = if test w.ident then w ∷ those test ws else those test ws

unfoldable pub archive_all : List Worker → Dict ClientStats → Dict ClientStats
unfolding archive_thread_stats
archive_all [] archive = archive
archive_all (w ∷ ws) archive = archive_all ws (archive_thread_stats w archive).1

-- `_purge_threads`
unfoldable pub purge_threads : (ℕ → Bool) → Factory → Factory
unfolding archive_all
purge_threads is_alive f = record {
  threads = those is_alive f.threads;
  archive = archive_all (those (λ i. not (is_alive i)) f.threads) f.archive;
}

abbrev pub archive_unless_alive : Bool → Worker → Dict ClientStats → Worker × Dict ClientStats
archive_unless_alive true w archive = (w, archive)
archive_unless_alive false w archive = archive_thread_stats w archive

-- `for t in threads: if not t.is_alive(): self._archive_thread_stats(t)`
unfoldable pub archive_ended :
    (ℕ → Bool) → List Worker → Dict ClientStats → List Worker × Dict ClientStats
unfolding archive_thread_stats
archive_ended is_alive [] archive = ([], archive)
archive_ended is_alive (w ∷ ws) archive =
    let one = archive_unless_alive (is_alive w.ident) w archive in
    let rest = archive_ended is_alive ws one.1 in (one.0 ∷ rest.0, rest.1)

unfoldable pub combine_all : Dict ClientStats → List Worker → Dict ClientStats
unfolding combine stats_from_thread
combine_all combined [] = combined
combine_all combined (w ∷ ws) = combine_all (combine combined (stats_from_thread w)) ws

-- `is_alive` is asked of every thread twice: before the archive is copied, and for the list of
-- those whose statistics are added to the copy.
unfoldable pub get_client_stats : (ℕ → Bool) → (ℕ → Bool) → ℕ → Factory → Snapshot × Factory
unfolding archive_ended combine_all snapshot_of
get_client_stats is_alive still_alive now f =
    let ended = archive_ended is_alive f.threads f.archive in
    let alive = those still_alive ended.0 in
    let combined = combine_all (map_values clone_client_stats ended.1) alive in
    (snapshot_of combined now, record { threads = ended.0; archive = ended.1 })

-- `_get_num_of_active_threads`
unfoldable pub get_num_of_active_threads : (ℕ → Bool) → Factory → ℕ
get_num_of_active_threads is_alive f = length (those is_alive f.threads)
