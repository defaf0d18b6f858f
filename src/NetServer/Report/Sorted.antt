-- ===== src/NetServer/Report/Sorted.antt =====
-- The report has the lines of every client, in the order of the ids.
use mathlib.Core.List.{Perm}
use mathlib.Core.List.Perm
use python_json_socket.Prelude.{
  ℕ, ◌<◌, codes, ◌++◌, suc, ◌+◌, ◌*◌, ◌≡◌, ◌≢◌, refl, ap, ◌∙◌, true, false, List, [], ◌∷◌, Option,
  none, some, Text, length, length-append, arith, Bool-cases, inl, inr, All, text_eq, text_eq_refl,
  ◌==◌, if◌then◌else◌,
}
use python_json_socket.Dict.{Dict, lookup}
use python_json_socket.Stats.Snapshot.{ClientSnapshot, Snapshot}
use python_json_socket.NetServer.Report.{
  text_leb, insert_key, sorted, keys, client_lines, all_lines, body_lines, report_lines,
  found_lines, concat,
}
use python_json_socket.Stats.Identity.{decimal}

-- Each key comes before the next.
abbrev pub IsSorted : List Text → Type 0
IsSorted [] = Unit
IsSorted (k ∷ []) = Unit
IsSorted (k ∷ j ∷ more) = (text_leb k j ≡ true) × IsSorted (j ∷ more)

text_leb_total : (s t : Text) → text_leb s t ≡ false → text_leb t s ≡ true
unfolding text_leb
text_leb_total [] t h = cc
text_leb_total (c ∷ s) [] h = refl
text_leb_total (c ∷ s) (d ∷ t) h = ground (arith, text_leb_total s t)

insert_key-head :
    (k j : Text) (l : List Text)
    → text_leb j k ≡ true
    → IsSorted (j ∷ l)
    → IsSorted (j ∷ insert_key k l)
unfolding insert_key
insert_key-head k j [] h s = (h, tt)
insert_key-head k j (i ∷ l) h s = elim (Bool-cases (text_leb k i)) [
  | inl before ↦ rw before (h, (before, s.1))
  | inr after ↦ rw after (s.0, insert_key-head k i l (text_leb_total k i after) s.1)
]

insert_key-IsSorted : (k : Text) (l : List Text) → IsSorted l → IsSorted (insert_key k l)
unfolding insert_key
insert_key-IsSorted k [] s = tt
insert_key-IsSorted k (i ∷ l) s = elim (Bool-cases (text_leb k i)) [
  | inl before ↦ rw before (before, s)
  | inr after ↦ rw after (insert_key-head k i l (text_leb_total k i after) s)
]

insert_key-Perm : (k : Text) (l : List Text) → Perm (insert_key k l) (k ∷ l)
unfolding insert_key
insert_key-Perm k [] = Perm.refl (k ∷ [])
insert_key-Perm k (i ∷ l) = elim (Bool-cases (text_leb k i)) [
  | inl before ↦ rw before (Perm.refl (k ∷ i ∷ l))
  | inr after ↦ rw after (Perm.trans (Perm.cons i (insert_key-Perm k l)) (Perm.swap k i l))
]

sorted-IsSorted : (l : List Text) → IsSorted (sorted l)
unfolding sorted
sorted-IsSorted [] = tt
sorted-IsSorted (k ∷ l) = insert_key-IsSorted k (sorted l) (sorted-IsSorted l)

sorted-Perm : (l : List Text) → Perm (sorted l) l
unfolding sorted
sorted-Perm [] = Perm.refl []
sorted-Perm (k ∷ l) = Perm.trans (insert_key-Perm k (sorted l)) (Perm.cons k (sorted-Perm l))

module _ {V : Type 0} where
  -- The key is one of the dict's.
  abbrev Found : Dict V → Text → Type 0
  Found d k = lookup k d ≢ none

  Found-later : (j : Text) (v : V) (d : Dict V) (k : Text) → Found d k → Found ((j, v) ∷ d) k
  unfolding lookup
  Found-later j v d k f = elim (Bool-cases (text_eq j k)) [
    | inl same ↦ rw same (λ e. cc e)
    | inr other ↦ rw other f
  ]

  All-later :
      (j : Text) (v : V) (d : Dict V) (ks : List Text)
      → All (Found d) ks
      → All (Found ((j, v) ∷ d)) ks
  All-later j v d [] a = tt
  All-later j v d (k ∷ ks) (f, a) = (Found-later j v d k f, All-later j v d ks a)

  keys-Found : (d : Dict V) → All (Found d) (keys d)
  unfolding lookup
  keys-Found [] = tt
  keys-Found ((k, v) ∷ d) =
      (rw (text_eq_refl k) (λ e. cc e), All-later k v d (keys d) (keys-Found d))

  insert_key-Found :
      (d : Dict V) (k : Text) (l : List Text)
      → Found d k
      → All (Found d) l
      → All (Found d) (insert_key k l)
  unfolding insert_key
  insert_key-Found d k [] f a = (f, tt)
  insert_key-Found d k (j ∷ l) f (g, a) = elim (Bool-cases (text_leb k j)) [
    | inl before ↦ rw before (f, (g, a))
    | inr after ↦ rw after (g, insert_key-Found d k l f a)
  ]

  sorted-Found : (d : Dict V) (l : List Text) → All (Found d) l → All (Found d) (sorted l)
  unfolding sorted
  sorted-Found d [] a = tt
  sorted-Found d (k ∷ l) (f, a) = insert_key-Found d k (sorted l) f (sorted-Found d l a)

length-insert_key : (k : Text) (l : List Text) → length (insert_key k l) ≡ suc (length l)
unfolding insert_key
length-insert_key k [] = refl
length-insert_key k (j ∷ l) = ground (arith, length-insert_key k l)

length-sorted : {V : Type 0} (d : Dict V) → length (sorted (keys d)) ≡ length d
unfolding sorted
length-sorted [] = refl
length-sorted ((k, v) ∷ d) = length-insert_key k (sorted (keys d)) ∙ ap suc (length-sorted d)

module _ (str_ts : Option ℕ → Text) (two_decimals : ℕ × ℕ → Text) where
  length-found_lines :
      (k : Text) (o : Option ClientSnapshot)
      → o ≢ none
      → length (found_lines str_ts two_decimals k o) ≡ 11
  unfolding client_lines
  length-found_lines k none f = absurd (f refl)
  length-found_lines k (some c) f = refl

  length-all_lines :
      (ks : List Text) (d : Dict ClientSnapshot)
      → All (Found d) ks
      → length (all_lines str_ts two_decimals ks d) ≡ 11 * length ks
  length-all_lines [] d a = refl
  length-all_lines (k ∷ ks) d (f, a) =
      let first = found_lines str_ts two_decimals k (lookup k d) in
      let more = all_lines str_ts two_decimals ks d in
      omega (
        arith,
        length-append first more,
        length-found_lines k (lookup k d) f,
        length-all_lines ks d a,
      )

  not_zero : (n : ℕ) → suc (11 * suc n) ≡ (if suc n == 0 then 2 else 1 + 11 * suc n)
  not_zero n = ground arith

  length-body_lines :
      (d : Dict ClientSnapshot)
      → suc (length (body_lines str_ts two_decimals d))
        ≡ (if length d == 0 then 2 else 1 + 11 * length d)
  length-body_lines [] = refl
  length-body_lines ((k, v) ∷ d) =
      let d' = (k, v) ∷ d in
      ap suc (
        length-all_lines (sorted (keys d')) d' (sorted-Found d' (keys d') (keys-Found d'))
        ∙ ap (λ n. 11 * n) (length-sorted d'))
      ∙ not_zero (length d)

  -- The first line, and the lines of these clients in this order.
  abbrev count_line : Snapshot → Text
  count_line s =
      concat (codes "client stats: connected_clients=" ∷ decimal s.connected_clients ∷ [])

  abbrev lines_of : Dict ClientSnapshot → List Text → List Text
  lines_of clients [] = []
  lines_of clients (k ∷ ks) =
      found_lines str_ts two_decimals k (lookup k clients) ++ lines_of clients ks

  abbrev lines_or_none : Dict ClientSnapshot → List Text → List Text
  lines_or_none clients [] = codes "  (no clients)" ∷ []
  lines_or_none clients (k ∷ ks) = lines_of clients (k ∷ ks)

  -- The ids are those of the clients, in the order of `str`, and the report is theirs.
  pub record Lists (s : Snapshot) : Type 0 where
    pub ids : List Text
    pub in_order : IsSorted ids
    pub complete : Perm ids (keys s.clients)
    pub lines : report_lines str_ts two_decimals s ≡ count_line s ∷ lines_or_none s.clients ids
    pub size :
        length (report_lines str_ts two_decimals s)
        ≡ (if length s.clients == 0 then 2 else 1 + 11 * length s.clients)

  all_lines-lines_of :
      (ks : List Text) (d : Dict ClientSnapshot)
      → all_lines str_ts two_decimals ks d ≡ lines_of d ks
  all_lines-lines_of [] d = refl
  all_lines-lines_of (k ∷ ks) d =
      ap (λ l. found_lines str_ts two_decimals k (lookup k d) ++ l) (all_lines-lines_of ks d)

  some_ids :
      (d : Dict ClientSnapshot) (ks : List Text)
      → 0 < length ks
      → lines_of d ks ≡ lines_or_none d ks
  some_ids d [] h = absurd (omega arith)
  some_ids d (k ∷ ks) h = refl

  body_lines-ids :
      (d : Dict ClientSnapshot)
      → body_lines str_ts two_decimals d ≡ lines_or_none d (sorted (keys d))
  unfolding sorted
  body_lines-ids [] = refl
  body_lines-ids ((k, v) ∷ d) =
      let d' = (k, v) ∷ d in
      all_lines-lines_of (sorted (keys d')) d'
      ∙ some_ids d' (sorted (keys d')) (omega (arith, length-sorted d'))

  -- The lines of the report are one for the count and one that says that there are no clients, or
  -- those of the clients one after another, in the order that `str` has for their ids, each client
  -- there; a client has eleven lines.
  pub report_lines-clients : (s : Snapshot) → Lists s
  report_lines-clients s = record {
    ids = sorted (keys s.clients);
    in_order = sorted-IsSorted (keys s.clients);
    complete = sorted-Perm (keys s.clients);
    lines = ap (λ l. count_line s ∷ l) (body_lines-ids s.clients);
    size = length-body_lines s.clients;
  }
