-- ===== src/Stats/Balanced/Served.antt =====
-- The notes of a client, from its connection to its end, keep the statistics balanced.
use python_json_socket.Prelude.{
  ℕ, ◌≡◌, refl, sym, ◌∙◌, true, [], ◌∷◌, Option, none, some, Text, text_eq, text_eq_iff, arith,
  Bool-cases, inl, inr,
}
use mathlib.Core.Option.{some-injective}
use mathlib.Core.Path.{subst}
use python_json_socket.Dict.{insert-IsDict, Dict, lookup, insert, lookup-insert_self}
use python_json_socket.Stats.{
  ClientStats, Tracker, Now, with_active, disconnect_id, get_active_client_id, update_stats,
  note_disconnect, note_message_in, note_message_out, note_failure, is_truthy, known, or_new,
  count_in, count_out, count_failure, mark_connected, mark_disconnected,
}
use python_json_socket.Stats.Session.{record_client_start, clear_client_stats}
use python_json_socket.Stats.Balanced.{
  IsRested, IsServed, RestedBut, IsIdle, IsBusy, RestedBut-insert, active-IsBusy,
  update_stats-IsBusy,
}

-- A change that leaves the connection alone, to the active entry if there is one.
noted-IsBusy :
    (change : ClientStats → ClientStats) (t : Tracker) (b : IsBusy t)
    → IsServed b.id (change b.entry)
    → IsBusy (with_active (λ id. update_stats id change) (get_active_client_id t) t)
noted-IsBusy change t b s =
    rw (active-IsBusy t b) (with_active-IsBusy b.id b.named (update_stats-IsBusy change t b s))
  where
    with_active-IsBusy :
        (id : Text)
        → is_truthy (some id) ≡ true
        → IsBusy (update_stats id change t)
        → IsBusy (with_active (λ i. update_stats i change) (some id) t)
    with_active-IsBusy [] h r = cc
    with_active-IsBusy (c ∷ w) h r = r

pub note_message_in-IsBusy :
    (size : Option ℕ) (now : Now) (t : Tracker) → IsBusy t → IsBusy (note_message_in size now t)
unfolding note_message_in
note_message_in-IsBusy size now t b =
    noted-IsBusy (count_in size now) t b
      (record { one_more = b.served.one_more; on = b.served.on; own_id = b.served.own_id })

pub note_message_out-IsBusy :
    (size : Option ℕ) (now : Now) (t : Tracker) → IsBusy t → IsBusy (note_message_out size now t)
unfolding note_message_out
note_message_out-IsBusy size now t b =
    noted-IsBusy (count_out size now) t b
      (record { one_more = b.served.one_more; on = b.served.on; own_id = b.served.own_id })

pub note_failure-IsBusy : (kind : Text) (t : Tracker) → IsBusy t → IsBusy (note_failure kind t)
unfolding note_failure
note_failure-IsBusy kind t b =
    noted-IsBusy (count_failure kind) t b
      (record { one_more = b.served.one_more; on = b.served.on; own_id = b.served.own_id })

-- The entry of a client that connects, new or rested.
mark_connected-IsServed :
    (id : Text) (now : Now) (o : Option ClientStats)
    → ((e : ClientStats) → o ≡ some e → IsRested id e)
    → IsServed id (mark_connected now (or_new id o))
mark_connected-IsServed id now none r = record { one_more = omega arith; on = refl; own_id = refl }
mark_connected-IsServed id now (some e) r =
    let z = r e refl in record { one_more = omega (arith, z.even); on = refl; own_id = z.own_id }

known_named : (id : Text) → is_truthy (some (known id)) ≡ true
known_named [] = refl
known_named (c ∷ s) = refl

pub record_client_start-IsBusy :
    (id : Text) (now : Now) (t : Tracker) → IsIdle t → IsBusy (record_client_start id now t)
unfolding record_client_start update_stats
record_client_start-IsBusy id now t i = record {
  id = known id;
  entry = mark_connected now (or_new (known id) (lookup (known id) t.client_stats));
  active = refl;
  named = known_named id;
  keys = insert-IsDict (known id) _ t.client_stats i.keys;
  present = lookup-insert_self (known id) _ t.client_stats;
  served =
      mark_connected-IsServed (known id) now (lookup (known id) t.client_stats)
        (i.rested (known id));
  rested = RestedBut-insert (known id) _ t.client_stats (λ k e l off. i.rested k e l);
}

-- The entry of a client that leaves.
mark_disconnected-IsRested :
    (id : Text) (now : Now) (e : ClientStats)
    → IsServed id e
    → IsRested id (mark_disconnected now e)
mark_disconnected-IsRested id now e s = record {
  even = omega (arith, s.one_more);
  off = refl;
  no_since = refl;
  own_id = s.own_id;
}

IsRested-insert :
    (id k : Text) (v e : ClientStats) (d : Dict ClientStats)
    → RestedBut id d
    → IsRested id v
    → lookup k (insert id v d) ≡ some e
    → IsRested k e
IsRested-insert id k v e d others here l = elim (Bool-cases (text_eq id k)) [
  | inl same ↦
      subst (λ i. lookup i (insert id v d) ≡ some e → IsRested i e) ((text_eq_iff id k).0 same)
        (λ found.
          subst (IsRested id) (some-injective _ _ (sym (lookup-insert_self id v d) ∙ found)) here)
        l
  | inr other ↦ RestedBut-insert id v d others k e l other
]

disconnect_id-connected :
    (id : Text) (now : Now) (t : Tracker) (e : ClientStats)
    → lookup id t.client_stats ≡ some e
    → e.connected ≡ true
    → disconnect_id id now t ≡ record t {
      client_stats = insert id (mark_disconnected now e) t.client_stats;
      active_client_id = none;
    }
unfolding update_stats
disconnect_id-connected id now t e l on = rw (l, on) refl

note_disconnect-IsBusy :
    (now : Now) (t : Tracker) (b : IsBusy t) → note_disconnect now t ≡ disconnect_id b.id now t
unfolding note_disconnect
note_disconnect-IsBusy now t b = rw (active-IsBusy t b) (at_id b.id b.named)
  where
    at_id :
        (id : Text)
        → is_truthy (some id) ≡ true
        → with_active (λ i. disconnect_id i now) (some id) t ≡ disconnect_id id now t
    at_id [] h = cc
    at_id (c ∷ w) h = refl

pub leave-IsIdle :
    (now : Now) (t : Tracker) → IsBusy t → IsIdle (clear_client_stats (note_disconnect now t))
unfolding clear_client_stats
leave-IsIdle now t b =
    rw
      (
        note_disconnect-IsBusy now t b,
        disconnect_id-connected b.id now t b.entry b.present b.served.on,
      )
      (record {
        no_active = refl;
        no_client = refl;
        keys = insert-IsDict b.id (mark_disconnected now b.entry) t.client_stats b.keys;
        rested = λ k e l.
            IsRested-insert b.id k (mark_disconnected now b.entry) e t.client_stats b.rested
              (mark_disconnected-IsRested b.id now b.entry b.served) l;
      })
