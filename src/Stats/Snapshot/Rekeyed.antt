-- ===== src/Stats/Snapshot/Rekeyed.antt =====
-- Statistics whose entries carry the ids under which they are kept are returned under these ids:
-- `_rekey_stats_map` leaves them as they are.
use python_json_socket.Prelude.{
  ◌≡◌, refl, sym, ap, ◌∙◌, false, [], ◌∷◌, ◌++◌, append-nil, append_assoc, All, none, some, Text,
  text_eq, text_eq_iff, text_eq_refl, text_eq_sym, Bool-cases, inl, inr,
}
use python_json_socket.Dict.{Dict, IsDict, lookup, insert, lookup-insert_other}
use python_json_socket.Stats.{ClientStats}
use python_json_socket.Stats.Merge.{id_or, rekey_entry, rekey_loop, rekey_stats_map}

-- The entry carries the id under which it is kept.
abbrev pub IsOwn : Text × ClientStats → Type 0
IsOwn (k, e) = e.client_id ≡ k

-- No key of the second is in the first.
abbrev Fresh : Dict ClientStats → Dict ClientStats → Type 0
Fresh d [] = Unit
Fresh d ((k, e) ∷ more) = (lookup k d ≡ none) × Fresh d more

insert-fresh :
    (k : Text) (e : ClientStats) (d : Dict ClientStats)
    → lookup k d ≡ none
    → insert k e d ≡ d ++ (k, e) ∷ []
unfolding lookup insert
insert-fresh k e [] h = refl
insert-fresh k e ((j, w) ∷ d) h = elim (Bool-cases (text_eq j k)) [
  | inl same ↦ cc (rw same at h)
  | inr other ↦ rw other (ap (λ l. (j, w) ∷ l) (insert-fresh k e d (rw other at h)))
]

lookup-differs :
    (k j : Text) (w : ClientStats) (d : Dict ClientStats)
    → lookup k ((j, w) ∷ d) ≡ none
    → text_eq j k ≡ false
unfolding lookup
lookup-differs k j w d h = elim (Bool-cases (text_eq j k)) [
  | inl same ↦ cc (rw same at h)
  | inr other ↦ other
]

lookup-tail :
    (k j : Text) (w : ClientStats) (d : Dict ClientStats)
    → lookup k ((j, w) ∷ d) ≡ none
    → lookup k d ≡ none
unfolding lookup
lookup-tail k j w d h = rw (lookup-differs k j w d h) at h

Fresh-insert :
    (k : Text) (e : ClientStats) (d more : Dict ClientStats)
    → lookup k more ≡ none
    → Fresh d more
    → Fresh (insert k e d) more
Fresh-insert k e d [] h f = tt
Fresh-insert k e d ((j, w) ∷ more) h (f, fs) = (
  lookup-insert_other k j e d (text_eq_sym j k (lookup-differs k j w more h)) ∙ f,
  Fresh-insert k e d more (lookup-tail k j w more h) fs,
)

id_or_same : (k : Text) → id_or k k ≡ k
id_or_same [] = refl
id_or_same (c ∷ k) = refl

rekey_entry-own : (e : ClientStats) (k : Text) → e.client_id ≡ k → rekey_entry k e none ≡ e
rekey_entry-own e k own = ap (λ i. record e { client_id = i }) (sym own)

rekey_loop-own :
    (rekeyed d : Dict ClientStats)
    → IsDict d
    → All IsOwn d
    → Fresh rekeyed d
    → rekey_loop rekeyed d ≡ rekeyed ++ d
unfolding rekey_loop
rekey_loop-own rekeyed [] keys own fresh = sym (append-nil rekeyed)
rekey_loop-own rekeyed ((k, e) ∷ d) (new, keys) (own, owns) (fresh, rest) =
    ap (λ i. rekey_loop (insert i (rekey_entry i e (lookup i rekeyed)) rekeyed) d)
      (ap (λ i. id_or i k) own ∙ id_or_same k)
    ∙ ap (λ o. rekey_loop (insert k (rekey_entry k e o) rekeyed) d) fresh
    ∙ ap (λ w. rekey_loop (insert k w rekeyed) d) (rekey_entry-own e k own)
    ∙ rekey_loop-own (insert k e rekeyed) d keys owns (Fresh-insert k e rekeyed d new rest)
    ∙ ap (λ l. l ++ d) (insert-fresh k e rekeyed fresh)
    ∙ append_assoc rekeyed ((k, e) ∷ []) d

Fresh-nil : (d : Dict ClientStats) → Fresh [] d
unfolding lookup
Fresh-nil [] = tt
Fresh-nil ((k, e) ∷ d) = (refl, Fresh-nil d)

pub rekey_stats_map-own : (d : Dict ClientStats) → IsDict d → All IsOwn d → rekey_stats_map d ≡ d
unfolding rekey_stats_map
rekey_stats_map-own d keys own = rekey_loop-own [] d keys own (Fresh-nil d)

pub keys-differ :
    (k j : Text) (e : ClientStats) (d : Dict ClientStats)
    → lookup j d ≡ none
    → lookup k d ≡ some e
    → text_eq j k ≡ false
keys-differ k j e d new l = elim (Bool-cases (text_eq j k)) [
  | inl same ↦ cc (ap (λ i. lookup i d) ((text_eq_iff j k).0 same))
  | inr other ↦ other
]

-- A key of the rest of a dict leads to the same entry in all of it.
pub lookup-cons :
    (k j : Text) (e w : ClientStats) (d : Dict ClientStats)
    → lookup j d ≡ none
    → lookup k d ≡ some e
    → lookup k ((j, w) ∷ d) ≡ some e
unfolding lookup
lookup-cons k j e w d new l = rw (keys-differ k j e d new l) l

pub lookup-head :
    (j : Text) (w : ClientStats) (d : Dict ClientStats) → lookup j ((j, w) ∷ d) ≡ some w
unfolding lookup
lookup-head j w d = rw (text_eq_refl j) refl

-- What holds of every entry that a key leads to holds of every entry.
pub All-lookup :
    (P : Text × ClientStats → Type 0) (d : Dict ClientStats)
    → IsDict d
    → ((k : Text) (e : ClientStats) → lookup k d ≡ some e → P (k, e))
    → All P d
All-lookup P [] keys h = tt
All-lookup P ((j, w) ∷ d) (new, keys) h =
    (h j w (lookup-head j w d), All-lookup P d keys (λ k e l. h k e (lookup-cons k j e w d new l)))
