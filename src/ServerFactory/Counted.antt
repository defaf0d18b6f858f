-- ===== src/ServerFactory/Counted.antt =====
-- No count is lost or doubled: by `_purge_threads`, and by `get_client_stats` as long as no thread
-- ends between its two looks at it.
use python_json_socket.Prelude.{
  ℕ, ◌+◌, ◌≡◌, refl, ap, Bool, true, false, not, ◌&&◌, List, [], ◌∷◌, arith, if◌then◌else◌,
  Bool-cases, inl, inr, All,
}
use python_json_socket.Dict.{Dict}
use python_json_socket.Stats.{ClientStats}
use python_json_socket.Stats.Count.{Counter, total}
use python_json_socket.Stats.Merge.{clone_client_stats}
use python_json_socket.Stats.Snapshot.{map_values}
use python_json_socket.ServerFactory.{
  Worker, Factory, stats_from_thread, combine, archive_thread_stats, those, purge_threads,
  archive_unless_alive, archive_ended, combine_all, get_client_stats,
}
use python_json_socket.ServerFactory.Totals.{
  counted, total-clones, total-stats_from_thread, total-snapshot_of, total-combine, unarchived,
  owed, archive_thread_stats-moves, total-archive_all,
}

-- What the factory has counted, in the archive and in the threads that are not in it.
abbrev pub grand_total : Counter → Factory → ℕ
grand_total c f = total c f.archive + owed c f.threads

owed-those :
    (c : Counter) (test : ℕ → Bool) (ws : List Worker)
    → owed c (those test ws) + owed c (those (λ i. not (test i)) ws) ≡ owed c ws
unfolding owed
owed-those c test [] = omega arith
owed-those c test (w ∷ ws) = elim (Bool-cases (test w.ident)) [
  | inl holds ↦ rw holds (omega (arith, owed-those c test ws))
  | inr fails ↦ rw fails (omega (arith, owed-those c test ws))
]

-- Whichever threads are found dead, `_purge_threads` moves all that they have counted into the
-- archive: no counter of the factory changes in total.
pub purge_threads-grand_total :
    (c : Counter) (is_alive : ℕ → Bool) (f : Factory)
    → grand_total c (purge_threads is_alive f) ≡ grand_total c f
unfolding purge_threads
purge_threads-grand_total c is_alive f = omega (
  arith,
  total-archive_all c (those (λ i. not (is_alive i)) f.threads) f.archive,
  owed-those c is_alive f.threads,
)

-- A thread that has been archived is dead, and a dead one stays dead.
pub record IsOrdered (is_alive still_alive : ℕ → Bool) (w : Worker) : Type 0 where
  pub gone : (w.archived && is_alive w.ident) ≡ false
  pub stays : (still_alive w.ident && not (is_alive w.ident)) ≡ false

-- All that the threads of a list have, archived or not.
unfoldable pub held : Counter → List Worker → ℕ
held c [] = 0
held c (w ∷ ws) = total c w.stats + held c ws

total-combine_all :
    (c : Counter) (combined : Dict ClientStats) (ws : List Worker)
    → total c (combine_all combined ws) ≡ total c combined + held c ws
unfolding combine_all held
total-combine_all c combined [] = omega arith
total-combine_all c combined (w ∷ ws) = omega (
  arith,
  total-combine_all c (combine combined (stats_from_thread w)) ws,
  total-combine c combined (stats_from_thread w),
  total-stats_from_thread c w,
)

-- Alive at the first look and dead at the second.
abbrev pub ends_between : (ℕ → Bool) → (ℕ → Bool) → ℕ → Bool
ends_between is_alive still_alive i = is_alive i && not (still_alive i)

held-those :
    (c : Counter) (test : ℕ → Bool) (w : Worker) (ws : List Worker)
    → held c (those test (w ∷ ws))
      ≡ (if test w.ident then total c w.stats else 0) + held c (those test ws)
unfolding held
held-those c test w ws = elim (Bool-cases (test w.ident)) [
  | inl holds ↦ rw holds refl
  | inr fails ↦ rw fails (omega arith)
]

owed-those_cons :
    (c : Counter) (test : ℕ → Bool) (w : Worker) (ws : List Worker)
    → owed c (those test (w ∷ ws))
      ≡ (if test w.ident then unarchived c w else 0) + owed c (those test ws)
unfolding owed
owed-those_cons c test w ws = elim (Bool-cases (test w.ident)) [
  | inl holds ↦ rw holds refl
  | inr fails ↦ rw fails (omega arith)
]

archive_thread_stats-ident :
    (w : Worker) (archive : Dict ClientStats) → (archive_thread_stats w archive).0.ident ≡ w.ident
unfolding archive_thread_stats
archive_thread_stats-ident w archive = elim (Bool-cases w.archived) [
  | inl done ↦ rw done refl
  | inr unset ↦ rw unset refl
]

archive_unless_alive-ident :
    (alive : Bool) (w : Worker) (archive : Dict ClientStats)
    → (archive_unless_alive alive w archive).0.ident ≡ w.ident
archive_unless_alive-ident true w archive = refl
archive_unless_alive-ident false w archive = archive_thread_stats-ident w archive

-- One thread: its counters are in the archive, or are added to the copy, or are missed.
settled :
    (c : Counter) (alive still : Bool) (w : Worker) (archive : Dict ClientStats)
    → (w.archived && alive) ≡ false
    → (still && not alive) ≡ false
    → total c (archive_unless_alive alive w archive).1
        + ((if still then total c (archive_unless_alive alive w archive).0.stats else 0)
            + (if alive && not still then unarchived c w else 0))
      ≡ total c archive + unarchived c w
settled c true true w archive gone stays = ground arith
settled c true false w archive gone stays = omega arith
settled c false true w archive gone stays = cc
settled c false false w archive gone stays =
    omega (arith, (archive_thread_stats-moves c w archive).0)

module _ (c : Counter) (is_alive still_alive : ℕ → Bool) where
  -- All threads: the archive, those that are listed, and those that are missed.
  archive_ended-settled :
      (ws : List Worker) (archive : Dict ClientStats)
      → All (IsOrdered is_alive still_alive) ws
      → total c (archive_ended is_alive ws archive).1
          + (held c (those still_alive (archive_ended is_alive ws archive).0)
              + owed c (those (ends_between is_alive still_alive) ws))
        ≡ total c archive + owed c ws
  unfolding archive_ended owed held
  archive_ended-settled [] archive all = omega arith
  archive_ended-settled (w ∷ ws) archive (ordered, all) =
      let one = archive_unless_alive (is_alive w.ident) w archive in
      let rest = archive_ended is_alive ws one.1 in
      omega (
        arith,
        archive_ended-settled ws one.1 all,
        held-those c still_alive one.0 rest.0,
        ap (λ i. if still_alive i then total c one.0.stats else 0)
            (archive_unless_alive-ident (is_alive w.ident) w archive),
        owed-those_cons c (ends_between is_alive still_alive) w ws,
        settled c (is_alive w.ident) (still_alive w.ident) w archive ordered.gone ordered.stays,
      )

  archive_unless_alive-total :
      (alive : Bool) (w : Worker) (archive : Dict ClientStats)
      → total c (archive_unless_alive alive w archive).1
          + unarchived c (archive_unless_alive alive w archive).0
        ≡ total c archive + unarchived c w
  archive_unless_alive-total true w archive = refl
  archive_unless_alive-total false w archive =
      let (moved, none_left) = archive_thread_stats-moves c w archive in
      omega (arith, moved, none_left)

  archive_ended-total :
      (ws : List Worker) (archive : Dict ClientStats)
      → total c (archive_ended is_alive ws archive).1 + owed c (archive_ended is_alive ws archive).0
        ≡ total c archive + owed c ws
  unfolding archive_ended owed
  archive_ended-total [] archive = refl
  archive_ended-total (w ∷ ws) archive =
      let one = archive_unless_alive (is_alive w.ident) w archive in
      omega (
        arith,
        archive_ended-total ws one.1,
        archive_unless_alive-total (is_alive w.ident) w archive,
      )

  -- Where an archived thread is dead and a dead one stays dead, the counters of all clients in what
  -- `get_client_stats` returns amount to all that the factory has counted, except what the threads
  -- have that were alive when they were asked first and dead when they were asked again. What the
  -- factory has counted stays the same.
  pub get_client_stats-grand_total :
      (now : ℕ) (f : Factory)
      → All (IsOrdered is_alive still_alive) f.threads
      → (total c (map_values counted (get_client_stats is_alive still_alive now f).0.clients)
            + owed c (those (ends_between is_alive still_alive) f.threads)
          ≡ grand_total c f)
        × (grand_total c (get_client_stats is_alive still_alive now f).1 ≡ grand_total c f)
  unfolding get_client_stats
  get_client_stats-grand_total now f all =
      let ended = archive_ended is_alive f.threads f.archive in
      let alive = those still_alive ended.0 in
      (
        omega (
          arith,
          total-snapshot_of c (combine_all (map_values clone_client_stats ended.1) alive) now,
          total-combine_all c (map_values clone_client_stats ended.1) alive,
          total-clones c ended.1,
          archive_ended-settled f.threads f.archive all,
        ),
        archive_ended-total f.threads f.archive,
      )
