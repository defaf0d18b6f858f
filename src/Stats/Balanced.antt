-- ===== src/Stats/Balanced.antt =====
-- What it means that the statistics are balanced: every entry has as many disconnects as connects,
-- except that of the client that is being served.
pub mod Moved
pub mod Served
use python_json_socket.Prelude.{
  ℕ, suc, ◌+◌, ◌≡◌, refl, sym, ap, ◌∙◌, Bool, true, false, List, [], ◌∷◌, Option, none, some, Text,
  text_eq, text_eq_iff, text_eq_refl, arith, Bool-cases, inl, inr, if◌then◌else◌,
}
use mathlib.Core.Option.{some-injective}
use mathlib.Core.Path.{subst}
use python_json_socket.Dict.{
  IsDict, insert-IsDict, Dict, lookup, insert, erase, lookup-insert, lookup-erase,
  lookup-insert_self, lookup-insert_other,
}
use python_json_socket.Stats.{
  ClientStats, Tracker, Now, with_active, disconnect_id, get_active_client_id, update_stats,
  note_connect, note_disconnect, note_message_in, note_message_out, note_failure, is_truthy, known,
  or_new, count_in, count_out, count_failure, mark_connected, mark_disconnected,
}
use python_json_socket.Stats.Merge.{merge_client_stats}
use python_json_socket.Stats.Identity.{
  set_client_identity, move_identity, merged_into, drop_id, existing_stats,
}
use python_json_socket.Stats.Session.{record_client_start, clear_client_stats}

-- An entry of a client that is not connected.
pub record IsRested (k : Text) (e : ClientStats) : Type 0 where
  pub even : e.connects ≡ e.disconnects
  pub off : e.connected ≡ false
  pub no_since : e.connected_since ≡ none
  pub own_id : e.client_id ≡ k

-- The entry of the client that is being served.
pub record IsServed (k : Text) (e : ClientStats) : Type 0 where
  pub one_more : e.connects ≡ suc e.disconnects
  pub on : e.connected ≡ true
  pub own_id : e.client_id ≡ k

-- All entries but that of `id` are of clients that are not connected.
abbrev pub RestedBut : Text → Dict ClientStats → Type 0
RestedBut id d =
    (k : Text) (e : ClientStats) → lookup k d ≡ some e → text_eq id k ≡ false → IsRested k e

pub RestedBut-insert :
    (id : Text) (v : ClientStats) (d : Dict ClientStats)
    → RestedBut id d
    → RestedBut id (insert id v d)
RestedBut-insert id v d h k e l off = h k e (sym (lookup-insert_other id k v d off) ∙ l) off

-- Between two clients.
pub record IsIdle (t : Tracker) : Type 0 where
  pub no_active : t.active_client_id ≡ none
  pub no_client : t.client_id ≡ none
  pub keys : IsDict t.client_stats
  pub rested : (k : Text) (e : ClientStats) → lookup k t.client_stats ≡ some e → IsRested k e

-- While the client `id` is served.
pub record IsBusy (t : Tracker) : Type 0 where
  pub id : Text
  pub entry : ClientStats
  pub active : t.active_client_id ≡ some id
  pub named : is_truthy (some id) ≡ true
  pub keys : IsDict t.client_stats
  pub present : lookup id t.client_stats ≡ some entry
  pub served : IsServed id entry
  pub rested : RestedBut id t.client_stats

pub active-IsBusy : (t : Tracker) (b : IsBusy t) → get_active_client_id t ≡ some b.id
unfolding get_active_client_id
active-IsBusy t b = rw (b.active, b.named)

-- A change to the entry of the client that is served.
pub update_stats-IsBusy :
    (change : ClientStats → ClientStats) (t : Tracker) (b : IsBusy t)
    → IsServed b.id (change b.entry)
    → IsBusy (update_stats b.id change t)
unfolding update_stats
update_stats-IsBusy change t b s = record {
  id = b.id;
  entry = change b.entry;
  active = b.active;
  named = b.named;
  keys = insert-IsDict b.id _ t.client_stats b.keys;
  present =
      lookup-insert_self b.id _ t.client_stats ∙ ap (λ o. some (change (or_new b.id o))) b.present;
  served = s;
  rested = RestedBut-insert b.id _ t.client_stats b.rested;
}
