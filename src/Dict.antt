-- ===== src/Dict.antt =====
-- Python's `dict` with `str` keys, in insertion order.
use python_json_socket.Prelude.{
  ◌≡◌, refl, List, [], ◌∷◌, Option, none, some, Text, text_eq, text_eq_iff, text_eq_refl, false,
  arith, if◌then◌else◌, ◌∙◌, Bool-cases, inl, inr, text_eq_sym, refl,
}

abbrev pub Dict {ℓ} : Type ℓ → Type ℓ
Dict V = List (Text × V)

module _ {ℓ} {V : Type ℓ} where
  -- `d.get(key)`
  unfoldable pub lookup : Text → Dict V → Option V
  lookup k [] = none
  lookup k ((j, v) ∷ d) = if text_eq j k then some v else lookup k d

  -- `d[key] = value`
  unfoldable pub insert : Text → V → Dict V → Dict V
  insert k v [] = (k, v) ∷ []
  insert k v ((j, w) ∷ d) = if text_eq j k then (j, v) ∷ d else (j, w) ∷ insert k v d

  -- `d.pop(key, None)`. Every entry of the key goes; a dict has at most one.
  unfoldable pub erase : Text → Dict V → Dict V
  erase k [] = []
  erase k ((j, w) ∷ d) = let rest = erase k d in if text_eq j k then rest else (j, w) ∷ rest

  pub lookup-insert :
      (k i : Text) (v : V) (d : Dict V)
      → lookup i (insert k v d) ≡ (if text_eq k i then some v else lookup i d)
  unfolding lookup insert
  lookup-insert k i v [] = refl
  lookup-insert k i v ((j, w) ∷ d) =
      ground (arith, text_eq_iff k i, text_eq_iff j k, text_eq_iff j i, lookup-insert k i v d)

  pub lookup-erase :
      (k i : Text) (d : Dict V) → lookup i (erase k d) ≡ (if text_eq k i then none else lookup i d)
  unfolding lookup erase
  lookup-erase k i [] = ground arith
  lookup-erase k i ((j, w) ∷ d) =
      ground (arith, text_eq_iff k i, text_eq_iff j k, text_eq_iff j i, lookup-erase k i d)

  pub lookup-insert_self : (k : Text) (v : V) (d : Dict V) → lookup k (insert k v d) ≡ some v
  lookup-insert_self k v d = rw (lookup-insert, text_eq_refl k)

  pub lookup-insert_other :
      (k i : Text) (v : V) (d : Dict V) → text_eq k i ≡ false → lookup i (insert k v d) ≡ lookup i d
  lookup-insert_other k i v d off = rw (lookup-insert, off)

  -- No key occurs twice.
  abbrev pub IsDict : Dict V → Type ℓ
  IsDict [] = Unit
  IsDict ((k, v) ∷ d) = (lookup k d ≡ none) × IsDict d

  pub insert-IsDict : (k : Text) (v : V) (d : Dict V) → IsDict d → IsDict (insert k v d)
  unfolding lookup insert
  insert-IsDict k v [] h = (refl, tt)
  insert-IsDict k v ((j, w) ∷ d) (fresh, h) = elim (Bool-cases (text_eq j k)) [
    | inl same ↦ rw same (fresh, h)
    | inr other ↦
        rw other
          (lookup-insert_other k j v d (text_eq_sym j k other) ∙ fresh, insert-IsDict k v d h)
  ]

  pub erase-IsDict : (k : Text) (d : Dict V) → IsDict d → IsDict (erase k d)
  unfolding lookup erase
  erase-IsDict k [] h = tt
  erase-IsDict k ((j, w) ∷ d) (fresh, h) = elim (Bool-cases (text_eq j k)) [
    | inl same ↦ rw same (erase-IsDict k d h)
    | inr other ↦
        rw other (rw (lookup-erase k j d, text_eq_sym j k other) fresh, erase-IsDict k d h)
  ]
