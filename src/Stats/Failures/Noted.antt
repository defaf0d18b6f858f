-- ===== src/Stats/Failures/Noted.antt =====
-- What `_note_failure` changes.
use python_json_socket.Prelude.{
  ℕ, ◌+◌, ◌≡◌, ◌≢◌, refl, ap, ◌∙◌, false, [], ◌∷◌, some, Text, text_eq, text_eq_iff, arith,
}
use python_json_socket.Dict.{Dict, lookup, insert, lookup-insert_self, lookup-insert_other}
use python_json_socket.Stats.{
  ClientStats, Tracker, size_or_zero, get_active_client_id, with_active, or_new, update_stats,
  add_failures, count_failure, note_failure,
}

-- The tracker counts for a client with this id, which is not empty, and this entry.
pub record IsActive (id : Text) (e : ClientStats) (t : Tracker) : Type 0 where
  pub active : get_active_client_id t ≡ some id
  pub named : id ≢ []
  pub entry : lookup id t.client_stats ≡ some e

-- One failure of the kind more in the client's entry, and nothing else.
pub record CountsOne (kind id : Text) (e : ClientStats) (t u : Tracker) : Type 0 where
  pub failures : Dict ℕ
  pub entry : lookup id u.client_stats ≡ some (record e { failures = failures })
  pub one_more : size_or_zero (lookup kind failures) ≡ size_or_zero (lookup kind e.failures) + 1
  pub other_kinds : (k : Text) → kind ≢ k → lookup k failures ≡ lookup k e.failures
  pub other_clients : (i : Text) → id ≢ i → lookup i u.client_stats ≡ lookup i t.client_stats
  pub same_active : u.active_client_id ≡ t.active_client_id
  pub same_id : u.client_id ≡ t.client_id
  pub same_start : u.client_started_at ≡ t.client_started_at

differ : (k i : Text) → k ≢ i → text_eq k i ≡ false
differ k i apart = ground (arith, text_eq_iff k i)

update_stats-CountsOne :
    (kind id : Text) (e : ClientStats) (t : Tracker)
    → lookup id t.client_stats ≡ some e
    → CountsOne kind id e t (update_stats id (count_failure kind) t)
unfolding update_stats add_failures
update_stats-CountsOne kind id e t found =
    let n = size_or_zero (lookup kind e.failures) + 1 in
    record {
      failures = insert kind n e.failures;
      entry =
          lookup-insert_self id (count_failure kind (or_new id (lookup id t.client_stats)))
            t.client_stats
          ∙ ap (λ o. some (count_failure kind (or_new id o))) found;
      one_more = ap size_or_zero (lookup-insert_self kind n e.failures);
      other_kinds = λ k apart. lookup-insert_other kind k n e.failures (differ kind k apart);
      other_clients = λ i apart. lookup-insert_other id i _ t.client_stats (differ id i apart);
      same_active = refl;
      same_id = refl;
      same_start = refl;
    }

noted :
    (kind id : Text) (e : ClientStats) (t : Tracker)
    → id ≢ []
    → CountsOne kind id e t (update_stats id (count_failure kind) t)
    → CountsOne kind id e t (with_active (λ i. update_stats i (count_failure kind)) (some id) t)
noted kind [] e t named counts = absurd (named refl)
noted kind (c ∷ id) e t named counts = counts

pub note_failure-CountsOne :
    (kind id : Text) (e : ClientStats) (t : Tracker)
    → IsActive id e t
    → CountsOne kind id e t (note_failure kind t)
unfolding note_failure
note_failure-CountsOne kind id e t a =
    rw a.active (noted kind id e t a.named (update_stats-CountsOne kind id e t a.entry))
