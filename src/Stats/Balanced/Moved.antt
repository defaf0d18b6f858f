-- ===== src/Stats/Balanced/Moved.antt =====
-- `_set_client_identity` keeps the statistics balanced.
use python_json_socket.Prelude.{
  suc, ◌≡◌, refl, sym, ap, ◌∙◌, true, false, [], ◌∷◌, Option, none, some, Text, text_eq, arith,
  Bool-cases, inl, inr, if◌then◌else◌,
}
use python_json_socket.Dict.{
  IsDict, insert-IsDict, erase-IsDict, Dict, lookup, insert, erase, lookup-erase,
  lookup-insert_self, lookup-insert_other,
}
use python_json_socket.Stats.{ClientStats, Tracker, is_truthy, or_new}
use python_json_socket.Stats.Merge.{merge_client_stats}
use python_json_socket.Stats.Identity.{
  set_client_identity, move_identity, merged_into, drop_id, existing_stats,
}
use python_json_socket.Stats.Balanced.{IsRested, IsServed, RestedBut, IsBusy, active-IsBusy}

-- The entry of the client that is served moves to another id, or into the entry that is there.
merged_into-IsServed :
    (k : Text) (e : ClientStats) (o : Option ClientStats)
    → ((target : ClientStats) → o ≡ some target → IsRested k target)
    → e.connects ≡ suc e.disconnects
    → e.connected ≡ true
    → IsServed k (merged_into o (record e { client_id = k }))
unfolding merge_client_stats
merged_into-IsServed k e none r p q = record { one_more = p; on = q; own_id = refl }
merged_into-IsServed k e (some target) r p q =
    let z = r target refl in
    record { one_more = omega (arith, z.even, p); on = rw q refl; own_id = z.own_id }

existing_stats-lookup :
    (id : Text) (d : Dict ClientStats)
    → is_truthy (some id) ≡ true
    → existing_stats (some id) d ≡ lookup id d
existing_stats-lookup [] d h = cc
existing_stats-lookup (c ∷ s) d h = refl

drop_id-erase :
    (id : Text) (d : Dict ClientStats)
    → is_truthy (some id) ≡ true
    → drop_id (some id) d ≡ erase id d
drop_id-erase [] d h = cc
drop_id-erase (c ∷ s) d h = refl

drop_id-IsDict : (id : Text) (d : Dict ClientStats) → IsDict d → IsDict (drop_id (some id) d)
drop_id-IsDict [] d h = h
drop_id-IsDict (c ∷ s) d h = erase-IsDict (c ∷ s) d h

-- What is left of an entry once another id was dropped.
lookup-drop_id :
    (id i : Text) (d : Dict ClientStats)
    → is_truthy (some id) ≡ true
    → lookup i (drop_id (some id) d) ≡ (if text_eq id i then none else lookup i d)
lookup-drop_id id i d h = ap (lookup i) (drop_id-erase id d h) ∙ lookup-erase id i d

lookup-drop_id_gone :
    (id i : Text) (d : Dict ClientStats)
    → is_truthy (some id) ≡ true
    → text_eq id i ≡ true
    → lookup i (drop_id (some id) d) ≡ none
lookup-drop_id_gone id i d h same = rw (lookup-drop_id id i d h, same)

lookup-drop_id_kept :
    (id i : Text) (d : Dict ClientStats)
    → is_truthy (some id) ≡ true
    → text_eq id i ≡ false
    → lookup i (drop_id (some id) d) ≡ lookup i d
lookup-drop_id_kept id i d h other = rw (lookup-drop_id id i d h, other)

RestedBut-moved :
    (id k : Text) (v : ClientStats) (d : Dict ClientStats)
    → is_truthy (some id) ≡ true
    → RestedBut id d
    → RestedBut k (drop_id (some id) (insert k v d))
RestedBut-moved id k v d named h i e l off = elim (Bool-cases (text_eq id i)) [
  | inl gone ↦ cc (lookup-drop_id_gone id i (insert k v d) named gone)
  | inr other ↦
      h i e
        (sym (lookup-insert_other k i v d off)
          ∙ sym (lookup-drop_id_kept id i (insert k v d) named other)
          ∙ l)
        other
]

move_identity-IsBusy :
    (k : Text) (t : Tracker) (b : IsBusy t)
    → is_truthy (some k) ≡ true
    → text_eq b.id k ≡ false
    → IsBusy (move_identity (some b.id) k t)
unfolding move_identity
move_identity-IsBusy k t b named off =
    let d = t.client_stats in
    let e = or_new k (existing_stats (some b.id) d) in
    let same : e ≡ b.entry = ap (or_new k) (existing_stats-lookup b.id d b.named ∙ b.present) in
    let v = merged_into (lookup k d) (record e { client_id = k }) in
    record {
      id = k;
      entry = v;
      active = refl;
      named = named;
      keys = drop_id-IsDict b.id (insert k v d) (insert-IsDict k v d b.keys);
      present = lookup-drop_id_kept b.id k (insert k v d) b.named off ∙ lookup-insert_self k v d;
      served =
          merged_into-IsServed k e (lookup k d) (λ target found. b.rested k target found off)
            (rw same b.served.one_more) (rw same b.served.on);
      rested = RestedBut-moved b.id k v d b.named b.rested;
    }

pub set_client_identity-IsBusy :
    (k : Text) (t : Tracker) → IsBusy t → IsBusy (set_client_identity k t)
unfolding set_client_identity
set_client_identity-IsBusy [] t b = b
set_client_identity-IsBusy (c ∷ s) t b =
    rw (active-IsBusy t b) (elim (Bool-cases (text_eq b.id (c ∷ s))) [
      | inl same ↦ rw same b
      | inr other ↦ rw other (move_identity-IsBusy (c ∷ s) t b refl other)
    ])
