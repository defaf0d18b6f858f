-- ===== src/Stats/Snapshot/Connected.antt =====
-- `connected_clients` of a `ThreadedServer`: 0 between two clients and 1 while one is served.
use mathlib.Core.Path.{subst}
use mathlib.Core.Option.{some-injective}
use python_json_socket.Prelude.{
  ℕ, ◌≡◌, refl, sym, ap, ◌∙◌, true, false, [], ◌∷◌, All, some, Text, text_eq, text_eq_iff,
  text_eq_sym, Bool-cases, inl, inr, arith,
}
use python_json_socket.Dict.{Dict, IsDict, lookup}
use python_json_socket.Stats.{ClientStats, Tracker}
use python_json_socket.Stats.Merge.{clone_client_stats, rekey_stats_map}
use python_json_socket.Stats.Balanced.{IsIdle, IsBusy}
use python_json_socket.Stats.Snapshot.{
  format_client_stats, map_values, count_connected, snapshot_of, get_client_stats,
}
use python_json_socket.Stats.Snapshot.Rekeyed.{
  IsOwn, rekey_stats_map-own, All-lookup, lookup-cons, keys-differ, lookup-head,
}

map_values-clone : (d : Dict ClientStats) → map_values clone_client_stats d ≡ d
map_values-clone [] = refl
map_values-clone ((k, e) ∷ d) = ap (λ l. (k, e) ∷ l) (map_values-clone d)

-- How many of the entries are of connected clients.
abbrev connected_of : ℕ → Dict ClientStats → ℕ
connected_of now d = count_connected (map_values (λ e. format_client_stats e now) d)

connected_of-own :
    (now : ℕ) (t : Tracker)
    → IsDict t.client_stats
    → All IsOwn t.client_stats
    → (get_client_stats t now).connected_clients ≡ connected_of now t.client_stats
unfolding get_client_stats snapshot_of
connected_of-own now t keys own =
    ap (λ d. connected_of now (rekey_stats_map d)) (map_values-clone t.client_stats)
    ∙ ap (connected_of now) (rekey_stats_map-own t.client_stats keys own)

abbrev IsOff : Text × ClientStats → Type 0
IsOff (k, e) = e.connected ≡ false

no_connected : (now : ℕ) (d : Dict ClientStats) → All IsOff d → connected_of now d ≡ 0
unfolding count_connected format_client_stats
no_connected now [] off = refl
no_connected now ((k, e) ∷ d) (o, off) = rw o (omega (arith, no_connected now d off))

one_connected :
    (now : ℕ) (id : Text) (entry : ClientStats) (d : Dict ClientStats)
    → IsDict d
    → lookup id d ≡ some entry
    → entry.connected ≡ true
    → ((k : Text) (e : ClientStats) → lookup k d ≡ some e → text_eq id k ≡ false → IsOff (k, e))
    → connected_of now d ≡ 1
unfolding count_connected format_client_stats lookup
one_connected now id entry [] keys here on off = cc
one_connected now id entry ((j, w) ∷ d) (new, keys) here on off = elim (Bool-cases (text_eq j id)) [
  | inl same ↦
      let found : w ≡ entry = some-injective _ _ (rw same at here) in
      rw (ap (λ (e : ClientStats). e.connected) found ∙ on) (
        omega (
          arith,
          no_connected now d (
              All-lookup IsOff d keys (λ k e l. off k e (lookup-cons k j e w d new l) (
                subst (λ i. text_eq i k ≡ false) ((text_eq_iff j id).0 same)
                  (keys-differ k j e d new l)))),
        ))
  | inr other ↦ rw (off j w (lookup-head j w d) (text_eq_sym j id other)) (
      omega (
        arith,
        one_connected now id entry d keys (rw other at here) on
            (λ k e l. off k e (lookup-cons k j e w d new l)),
      ))
]

-- Between two clients `get_client_stats` says that none is connected.
pub connected_clients-IsIdle :
    (now : ℕ) (t : Tracker) → IsIdle t → (get_client_stats t now).connected_clients ≡ 0
connected_clients-IsIdle now t i =
    connected_of-own now t i.keys
      (All-lookup IsOwn t.client_stats i.keys (λ k e l. (i.rested k e l).own_id))
    ∙ no_connected now t.client_stats
        (All-lookup IsOff t.client_stats i.keys (λ k e l. (i.rested k e l).off))

-- The entry of the client that is served and the others carry their ids.
busy-IsOwn :
    (t : Tracker) (b : IsBusy t) (k : Text) (e : ClientStats)
    → lookup k t.client_stats ≡ some e
    → IsOwn (k, e)
busy-IsOwn t b k e l = elim (Bool-cases (text_eq b.id k)) [
  | inl same ↦
      let at : b.id ≡ k = (text_eq_iff b.id k).0 same in
      let found : b.entry ≡ e =
        some-injective _ _ (sym b.present ∙ ap (λ i. lookup i t.client_stats) at ∙ l) in
      sym (ap (λ (w : ClientStats). w.client_id) found) ∙ b.served.own_id ∙ at
  | inr other ↦ (b.rested k e l other).own_id
]

-- While a client is served `get_client_stats` says that one is connected.
pub connected_clients-IsBusy :
    (now : ℕ) (t : Tracker) → IsBusy t → (get_client_stats t now).connected_clients ≡ 1
connected_clients-IsBusy now t b =
    connected_of-own now t b.keys (All-lookup IsOwn t.client_stats b.keys (busy-IsOwn t b))
    ∙ one_connected now b.id b.entry t.client_stats b.keys b.present b.served.on
        (λ k e l other. (b.rested k e l other).off)
