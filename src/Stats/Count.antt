-- ===== src/Stats/Count.antt =====
-- The counters of the statistics, and their sums over the clients: merging and rekeying keep them.
use python_json_socket.Prelude.{
  ℕ, ◌+◌, ◌≤◌, ◌≡◌, refl, [], ◌∷◌, Option, none, some, Text, text_eq, arith, Bool-cases, inl, inr,
}
use python_json_socket.Dict.{Dict, lookup, insert}
use python_json_socket.Stats.{
  ClientStats, Tracker, Now, add_failures, size_or_zero, or_new, update_stats, mark_disconnected,
  disconnect_id, with_active, get_active_client_id, note_disconnect,
}
use python_json_socket.Stats.Merge.{
  merge_failures, merge_client_stats, rekey_entry, rekey_loop, rekey_stats_map, id_or,
}

pub data Counter : Type 0 where
  connects disconnects messages_in messages_out bytes_in bytes_out failures : Counter

-- The failures of all kinds.
unfoldable pub sum : Dict ℕ → ℕ
sum [] = 0
sum ((kind, n) ∷ d) = n + sum d

abbrev pub count : Counter → ClientStats → ℕ
count connects e = e.connects
count disconnects e = e.disconnects
count messages_in e = e.messages_in
count messages_out e = e.messages_out
count bytes_in e = e.bytes_in
count bytes_out e = e.bytes_out
count failures e = sum e.failures

-- What a counter amounts to over all clients.
unfoldable pub total : Counter → Dict ClientStats → ℕ
total c [] = 0
total c ((id, e) ∷ d) = count c e + total c d

sum-insert :
    (kind : Text) (n : ℕ) (d : Dict ℕ)
    → sum (insert kind n d) + size_or_zero (lookup kind d) ≡ sum d + n
unfolding sum lookup insert
sum-insert kind n [] = omega arith
sum-insert kind n ((j, m) ∷ d) = elim (Bool-cases (text_eq j kind)) [
  | inl same ↦ rw same (omega arith)
  | inr other ↦ rw other (omega (arith, sum-insert kind n d))
]

sum-add_failures : (kind : Text) (n : ℕ) (d : Dict ℕ) → sum (add_failures kind n d) ≡ sum d + n
unfolding add_failures
sum-add_failures kind n d = omega (arith, sum-insert kind (size_or_zero (lookup kind d) + n) d)

sum-merge_failures : (dest src : Dict ℕ) → sum (merge_failures dest src) ≡ sum dest + sum src
unfolding sum merge_failures
sum-merge_failures dest [] = omega arith
sum-merge_failures dest ((kind, n) ∷ src) =
    omega (arith, sum-merge_failures (add_failures kind n dest) src, sum-add_failures kind n dest)

pub count-merge :
    (c : Counter) (dest src : ClientStats)
    → count c (merge_client_stats dest src) ≡ count c dest + count c src
unfolding merge_client_stats
count-merge connects dest src = refl
count-merge disconnects dest src = refl
count-merge messages_in dest src = refl
count-merge messages_out dest src = refl
count-merge bytes_in dest src = refl
count-merge bytes_out dest src = refl
count-merge failures dest src = sum-merge_failures dest.failures src.failures

-- What an entry that may be missing counts for.
abbrev pub count_found : Counter → Option ClientStats → ℕ
count_found c none = 0
count_found c (some e) = count c e

pub total-insert :
    (c : Counter) (id : Text) (e : ClientStats) (d : Dict ClientStats)
    → total c (insert id e d) + count_found c (lookup id d) ≡ total c d + count c e
unfolding total lookup insert
total-insert c id e [] = omega arith
total-insert c id e ((j, w) ∷ d) = elim (Bool-cases (text_eq j id)) [
  | inl same ↦ rw same (omega arith)
  | inr other ↦ rw other (omega (arith, total-insert c id e d))
]

count-renamed :
    (c : Counter) (id : Text) (e : ClientStats) → count c (record e { client_id = id }) ≡ count c e
count-renamed connects id e = refl
count-renamed disconnects id e = refl
count-renamed messages_in id e = refl
count-renamed messages_out id e = refl
count-renamed bytes_in id e = refl
count-renamed bytes_out id e = refl
count-renamed failures id e = refl

count-rekey_entry :
    (c : Counter) (key : Text) (e : ClientStats) (o : Option ClientStats)
    → count c (rekey_entry key e o) ≡ count_found c o + count c e
count-rekey_entry c key e none = omega (arith, count-renamed c key e)
count-rekey_entry c key e (some there) = count-merge c there e

total-rekey_loop :
    (c : Counter) (rekeyed stats_map : Dict ClientStats)
    → total c (rekey_loop rekeyed stats_map) ≡ total c rekeyed + total c stats_map
unfolding total rekey_loop
total-rekey_loop c rekeyed [] = omega arith
total-rekey_loop c rekeyed ((client_id, e) ∷ stats_map) =
    let key = id_or e.client_id client_id in
    let entry = rekey_entry key e (lookup key rekeyed) in
    omega (
      arith,
      total-rekey_loop c (insert key entry rekeyed) stats_map,
      total-insert c key entry rekeyed,
      count-rekey_entry c key e (lookup key rekeyed),
    )

-- `_rekey_stats_map` changes no total.
pub total-rekey_stats_map :
    (c : Counter) (d : Dict ClientStats) → total c (rekey_stats_map d) ≡ total c d
unfolding rekey_stats_map total
total-rekey_stats_map c d = omega (arith, total-rekey_loop c [] d)

count_found-or_new :
    (c : Counter) (id : Text) (o : Option ClientStats) → count_found c o ≤ count c (or_new id o)
count_found-or_new c id none = omega arith
count_found-or_new c id (some e) = omega arith

total-update_stats :
    (c : Counter) (id : Text) (change : ClientStats → ClientStats) (t : Tracker)
    → ((e : ClientStats) → count c e ≤ count c (change e))
    → total c t.client_stats ≤ total c (update_stats id change t).client_stats
unfolding update_stats
total-update_stats c id change t grows =
    let found = lookup id t.client_stats in
    omega (
      arith,
      total-insert c id (change (or_new id found)) t.client_stats,
      count_found-or_new c id found,
      grows (or_new id found),
    )

count-mark_disconnected :
    (c : Counter) (now : Now) (e : ClientStats) → count c e ≤ count c (mark_disconnected now e)
count-mark_disconnected disconnects now e = omega arith
count-mark_disconnected connects now e = omega arith
count-mark_disconnected messages_in now e = omega arith
count-mark_disconnected messages_out now e = omega arith
count-mark_disconnected bytes_in now e = omega arith
count-mark_disconnected bytes_out now e = omega arith
count-mark_disconnected failures now e = omega arith

total-disconnect_id :
    (c : Counter) (id : Text) (now : Now) (t : Tracker)
    → total c t.client_stats ≤ total c (disconnect_id id now t).client_stats
total-disconnect_id c id now t =
    elim (Bool-cases (or_new id (lookup id t.client_stats)).connected) [
      | inl on ↦
          rw on (
            total-update_stats c id (mark_disconnected now) t
              (λ e. count-mark_disconnected c now e))
      | inr off ↦ rw off (total-update_stats c id (λ stats. stats) t (λ e. omega arith))
    ]

total-with_active :
    (c : Counter) (note : Text → Tracker → Tracker) (o : Option Text) (t : Tracker)
    → ((id : Text) → total c t.client_stats ≤ total c (note id t).client_stats)
    → total c t.client_stats ≤ total c (with_active note o t).client_stats
total-with_active c note none t grows = omega arith
total-with_active c note (some []) t grows = omega arith
total-with_active c note (some (d ∷ id)) t grows = grows (d ∷ id)

-- `_note_disconnect` takes nothing from a counter.
pub total-note_disconnect :
    (c : Counter) (now : Now) (t : Tracker)
    → total c t.client_stats ≤ total c (note_disconnect now t).client_stats
unfolding note_disconnect
total-note_disconnect c now t =
    total-with_active c (λ id. disconnect_id id now) (get_active_client_id t) t
      (λ id. total-disconnect_id c id now t)
