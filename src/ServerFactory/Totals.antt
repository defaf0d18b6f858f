-- ===== src/ServerFactory/Totals.antt =====
-- The totals of the counters over the entries that `ServerFactory` moves and copies.
use python_json_socket.Prelude.{
  ℕ, ◌+◌, ◌≡◌, refl, ap, ◌∙◌, List, [], ◌∷◌, Option, none, some, arith, if◌then◌else◌, Bool-cases,
  inl, inr,
}
use python_json_socket.Dict.{Dict, lookup, insert}
use python_json_socket.Stats.{ClientStats}
use python_json_socket.Stats.Count.{
  Counter, connects, disconnects, messages_in, messages_out, bytes_in, bytes_out, failures, count,
  count_found, count-merge, total, total-insert, total-rekey_stats_map,
}
use python_json_socket.Stats.Merge.{clone_client_stats, rekey_stats_map}
use python_json_socket.Stats.Snapshot.{ClientSnapshot, format_client_stats, snapshot_of, map_values}
use python_json_socket.ServerFactory.{
  Worker, stats_from_thread, add_entry, combine, mark_gone, archive_thread_stats, archive_all,
}

count-mark_gone : (c : Counter) (e : ClientStats) → count c (mark_gone e) ≡ count c e
count-mark_gone connects e = refl
count-mark_gone disconnects e = refl
count-mark_gone messages_in e = refl
count-mark_gone messages_out e = refl
count-mark_gone bytes_in e = refl
count-mark_gone bytes_out e = refl
count-mark_gone failures e = refl

count-clone : (c : Counter) (e : ClientStats) → count c (clone_client_stats e) ≡ count c e
count-clone c e = refl

-- The entries of a snapshot, as counters.
abbrev pub counted : ClientSnapshot → ClientStats
counted s = s.stats

count-format :
    (c : Counter) (e : ClientStats) (now : ℕ)
    → count c (counted (format_client_stats e now)) ≡ count c e
unfolding format_client_stats
count-format connects e now = refl
count-format disconnects e now = refl
count-format messages_in e now = refl
count-format messages_out e now = refl
count-format bytes_in e now = refl
count-format bytes_out e now = refl
count-format failures e now = refl

total-map_values :
    (c : Counter) (f : ClientStats → ClientStats) (d : Dict ClientStats)
    → ((e : ClientStats) → count c (f e) ≡ count c e)
    → total c (map_values f d) ≡ total c d
unfolding total
total-map_values c f [] h = refl
total-map_values c f ((k, e) ∷ d) h = omega (arith, h e, total-map_values c f d h)

pub total-clones :
    (c : Counter) (d : Dict ClientStats) → total c (map_values clone_client_stats d) ≡ total c d
total-clones c d = total-map_values c clone_client_stats d (count-clone c)

pub total-stats_from_thread :
    (c : Counter) (w : Worker) → total c (stats_from_thread w) ≡ total c w.stats
unfolding stats_from_thread
total-stats_from_thread c w = total-clones c w.stats

map_values-map_values :
    (now : ℕ) (d : Dict ClientStats)
    → map_values counted (map_values (λ e. format_client_stats e now) d)
      ≡ map_values (λ e. counted (format_client_stats e now)) d
map_values-map_values now [] = refl
map_values-map_values now ((k, e) ∷ d) =
    ap (λ r. (k, counted (format_client_stats e now)) ∷ r) (map_values-map_values now d)

-- What is returned counts what was combined.
pub total-snapshot_of :
    (c : Counter) (d : Dict ClientStats) (now : ℕ)
    → total c (map_values counted (snapshot_of d now).clients) ≡ total c d
unfolding snapshot_of
total-snapshot_of c d now =
    ap (total c) (map_values-map_values now (rekey_stats_map d))
    ∙ total-map_values c (λ e. counted (format_client_stats e now)) (rekey_stats_map d)
        (λ e. count-format c e now)
    ∙ total-rekey_stats_map c d

count-add_entry :
    (c : Counter) (e : ClientStats) (o : Option ClientStats)
    → count c (add_entry e o) ≡ count_found c o + count c e
count-add_entry c e none = omega arith
count-add_entry c e (some there) = count-merge c there e

pub total-combine :
    (c : Counter) (dest src : Dict ClientStats)
    → total c (combine dest src) ≡ total c dest + total c src
unfolding combine total
total-combine c dest [] = omega arith
total-combine c dest ((id, e) ∷ src) =
    let entry = add_entry e (lookup id dest) in
    omega (
      arith,
      total-combine c (insert id entry dest) src,
      total-insert c id entry dest,
      count-add_entry c e (lookup id dest),
    )

-- What a thread has that is not in the archive yet.
abbrev pub unarchived : Counter → Worker → ℕ
unarchived c w = if w.archived then 0 else total c w.stats

-- The same for all threads of a list.
unfoldable pub owed : Counter → List Worker → ℕ
owed c [] = 0
owed c (w ∷ ws) = unarchived c w + owed c ws

total-gone :
    (c : Counter) (w : Worker)
    → total c (map_values mark_gone (stats_from_thread w)) ≡ total c w.stats
total-gone c w =
    total-map_values c mark_gone (stats_from_thread w) (count-mark_gone c)
    ∙ total-stats_from_thread c w

-- Archiving a thread moves what it has into the archive, once.
pub archive_thread_stats-moves :
    (c : Counter) (w : Worker) (archive : Dict ClientStats)
    → (total c (archive_thread_stats w archive).1 ≡ total c archive + unarchived c w)
      × (unarchived c (archive_thread_stats w archive).0 ≡ 0)
unfolding archive_thread_stats
archive_thread_stats-moves c w archive = elim (Bool-cases w.archived) [
  | inl done ↦ rw done (omega arith, refl)
  | inr unset ↦ rw unset (
    omega (
      arith,
      total-combine c archive (map_values mark_gone (stats_from_thread w)),
      total-gone c w,
    ),
    refl,
  )
]

pub total-archive_all :
    (c : Counter) (ws : List Worker) (archive : Dict ClientStats)
    → total c (archive_all ws archive) ≡ total c archive + owed c ws
unfolding archive_all owed
total-archive_all c [] archive = omega arith
total-archive_all c (w ∷ ws) archive = omega (
  arith,
  total-archive_all c ws (archive_thread_stats w archive).1,
  (archive_thread_stats-moves c w archive).0,
)
