-- ===== src/Stats/Identity.antt =====
-- `_normalize_client_id`, `_extract_client_id` and `_set_client_identity`.
use python_json_socket.Prelude.{
  ℕ, zero, suc, ◌+◌, ◌/◌, ◌%◌, Bool, true, false, ◌||◌, ◌&&◌, [], ◌∷◌, Option, none, some, Text,
  codes, text_eq, ltb, leb, ◌==◌, if◌then◌else◌,
}
use mathlib.Core.List.{reverse}
use python_json_socket.Dict.{Dict, lookup, insert, erase}
use python_json_socket.Codec.{
  Value, null, bool, nonneg, negative, float, str, list, dict, Fields, end, field,
}
use python_json_socket.Stats.{ClientStats, Tracker, get_active_client_id, or_new}
use python_json_socket.Stats.Merge.{merge_client_stats}

-- `str(n)`, with fuel for more digits than there are.
unfoldable pub digits : ℕ → ℕ → Text → Text
digits zero n tail = tail
digits (suc fuel) n tail =
    let rest = digits fuel (n / 10) ((48 + n % 10) ∷ tail) in
    if ltb n 10 then (48 + n) ∷ tail else rest

unfoldable pub decimal : ℕ → Text
unfolding digits
decimal n = digits (suc n) n []

-- `str.isspace` of one character.
unfoldable pub is_space : ℕ → Bool
is_space c =
    (leb 9 c && leb c 13)
    || (leb 28 c && leb c 32)
    || c == 0x85
    || c == 0xA0
    || c == 0x1680
    || (leb 0x2000 c && leb c 0x200A)
    || c == 0x2028
    || c == 0x2029
    || c == 0x202F
    || c == 0x205F
    || c == 0x3000

unfoldable pub lstrip : Text → Text
unfolding is_space
lstrip [] = []
lstrip (c ∷ s) = if is_space c then lstrip s else c ∷ s

unfoldable pub strip : Text → Text
unfolding lstrip
strip s = reverse (lstrip (reverse (lstrip s)))

-- `s or None`
abbrev pub or_none : Text → Option Text
or_none [] = none
or_none (c ∷ s) = some (c ∷ s)

abbrev later : Option Value → Option Value → Option Value
later none found = found
later (some w) found = some w

-- `obj.get(key)`; of a repeated key the last value counts.
unfoldable pub get_field : Text → Fields → Option Value
get_field key end = none
get_field key (field k v fields) =
    later (get_field key fields) (if text_eq k key then some v else none)

-- `str` of a list and of a dict is `repr`, which the program only passes on.
module _ (repr : Value → Text) where
  unfoldable pub normalize_client_id : Value → Option Text
  unfolding decimal strip
  normalize_client_id null = none
  normalize_client_id (bool true) = some (codes "True")
  normalize_client_id (bool false) = some (codes "False")
  normalize_client_id (nonneg n) = some (decimal n)
  normalize_client_id (negative n) = some (b'-' ∷ decimal (suc n))
  normalize_client_id (float s) = some s
  normalize_client_id (str s) = or_none (strip s)
  normalize_client_id (list items) = some (repr (list items))
  normalize_client_id (dict fields) = some (repr (dict fields))

  abbrev pub normalize_found : Option Value → Option Text → Option Text
  normalize_found none otherwise = otherwise
  normalize_found (some value) otherwise = normalize_client_id value

  unfoldable pub extract_client_id : Value → Option Text
  unfolding get_field normalize_client_id
  extract_client_id (dict fields) =
      normalize_found (get_field (codes "client") fields)
        (normalize_found (get_field (codes "client_id") fields) none)
  extract_client_id other = none

-- `current_id == new_client_id`
abbrev pub is_id : Option Text → Text → Bool
is_id none new_id = false
is_id (some id) new_id = text_eq id new_id

abbrev pub existing_stats : Option Text → Dict ClientStats → Option ClientStats
existing_stats none stats = none
existing_stats (some []) stats = none
existing_stats (some (c ∷ s)) stats = lookup (c ∷ s) stats

abbrev pub merged_into : Option ClientStats → ClientStats → ClientStats
merged_into none existing = existing
merged_into (some target) existing = merge_client_stats target existing

abbrev pub drop_id : Option Text → Dict ClientStats → Dict ClientStats
drop_id none stats = stats
drop_id (some []) stats = stats
drop_id (some (c ∷ s)) stats = erase (c ∷ s) stats

-- The entry of the current id moves to the new one, into the entry that is there.
unfoldable pub move_identity : Option Text → Text → Tracker → Tracker
move_identity current new_id t =
    let existing = record (or_new new_id (existing_stats current t.client_stats)) {
      client_id = new_id;
    } in
    let stats = merged_into (lookup new_id t.client_stats) existing in
    record t {
      client_stats = drop_id current (insert new_id stats t.client_stats);
      active_client_id = some new_id;
      client_id = some new_id;
    }

unfoldable pub set_client_identity : Text → Tracker → Tracker
unfolding move_identity
set_client_identity [] t = t
set_client_identity (c ∷ s) t =
    if is_id (get_active_client_id t) (c ∷ s)
    then t
    else move_identity (get_active_client_id t) (c ∷ s) t
