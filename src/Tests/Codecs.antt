-- ===== src/Tests/Codecs.antt =====
-- A codec of objects whose fields are texts and numbers: each text goes behind its length.
use mathlib.Core.Path.{subst}
use mathlib.Core.Option.{some-injective}
use python_json_socket.Prelude.{
  ℕ, zero, suc, ◌<◌, ◌≡◌, refl, sym, ap, Bool, true, List, [], ◌∷◌, ◌++◌, Option, none, some, Text,
  arith, All, length, length-append, take, drop, take-append, drop-append, ltb, Bool-cases, inl,
  inr, if◌then◌else◌, ◌&&◌,
}
use python_json_socket.Framing.Bytes.{IsByte}
use python_json_socket.Codec.{Codec, Value, nonneg, str, dict, Fields, end, field, IsLossless}

abbrev pub sized : Text → Text → Text
sized s more = length s ∷ (s ++ more)

abbrev behind : (Text → Text) → Option Text → Option Text
behind f none = none
behind f (some t) = some (f t)

abbrev pub text_field : Text → Text → Text → Text
text_field k s t = zero ∷ sized k (sized s t)

abbrev pub number_field : Text → ℕ → Text → Text
number_field k n t = suc zero ∷ sized k (n ∷ t)

abbrev dump_fields : Fields → Option Text
dump_fields end = some []
dump_fields (field k (str s) fields) = behind (text_field k s) (dump_fields fields)
dump_fields (field k (nonneg n) fields) = behind (number_field k n) (dump_fields fields)
dump_fields other = none

abbrev dump_object : Value → Option Text
dump_object (dict fields) = dump_fields fields
dump_object other = none

abbrev with_field : Text → Value → Option Fields → Option Fields
with_field k v none = none
with_field k v (some fields) = some (field k v fields)

abbrev load_text : (Text → Option Fields) → Text → Text → Option Fields
load_text next k [] = none
load_text next k (n ∷ t) = with_field k (str (take n t)) (next (drop n t))

abbrev load_number : (Text → Option Fields) → Text → Text → Option Fields
load_number next k [] = none
load_number next k (n ∷ t) = with_field k (nonneg n) (next t)

abbrev load_fields : ℕ → Text → Option Fields
load_fields zero t = none
load_fields (suc fuel) [] = some end
load_fields (suc fuel) (c ∷ []) = none
load_fields (suc fuel) (zero ∷ n ∷ t) = load_text (load_fields fuel) (take n t) (drop n t)
load_fields (suc fuel) (suc zero ∷ n ∷ t) = load_number (load_fields fuel) (take n t) (drop n t)
load_fields (suc fuel) (suc (suc c) ∷ n ∷ t) = none

abbrev as_dict : Option Fields → Option Value
as_dict none = none
as_dict (some fields) = some (dict fields)

abbrev load_object : Text → Option Value
load_object t = as_dict (load_fields (suc (length t)) t)

-- Only bytes are encoded.
abbrev all_bytes : Text → Bool
all_bytes [] = true
all_bytes (c ∷ t) = ltb c 256 && all_bytes t

abbrev encode_bytes : Text → Option (List ℕ)
encode_bytes t = if all_bytes t then some t else none

abbrev pub field_codec : Codec
field_codec = record {
  dumps = dump_object;
  encode = encode_bytes;
  decode = λ b. some b;
  loads = load_object;
  is_decode_error = λ t. true;
}

-- What is read back of a dumped rest.
abbrev Loads : Fields → Option Text → Type 0
Loads fields none = Unit
Loads fields (some t) = (fuel : ℕ) → length t < fuel → load_fields fuel t ≡ some fields

load_text_field :
    (k s : Text) (fields : Fields) (o : Option Text)
    → Loads fields o
    → Loads (field k (str s) fields) (behind (text_field k s) o)
load_text_field k s fields none l = tt
load_text_field k s fields (some t) l = λ fuel enough. from fuel enough
  where
    from :
        (fuel : ℕ)
        → length (text_field k s t) < fuel
        → load_fields fuel (text_field k s t) ≡ some (field k (str s) fields)
    from zero enough = absurd (omega arith)
    from (suc fuel) enough =
        rw (take-append k (sized s t), drop-append k (sized s t), take-append s t, drop-append s t)
          (ap (with_field k (str s))
            (l fuel (omega (arith, length-append k (sized s t), length-append s t))))

load_number_field :
    (k : Text) (n : ℕ) (fields : Fields) (o : Option Text)
    → Loads fields o
    → Loads (field k (nonneg n) fields) (behind (number_field k n) o)
load_number_field k n fields none l = tt
load_number_field k n fields (some t) l = λ fuel enough. from fuel enough
  where
    from :
        (fuel : ℕ)
        → length (number_field k n t) < fuel
        → load_fields fuel (number_field k n t) ≡ some (field k (nonneg n) fields)
    from zero enough = absurd (omega arith)
    from (suc fuel) enough =
        rw (take-append k (n ∷ t), drop-append k (n ∷ t))
          (ap (with_field k (nonneg n)) (l fuel (omega (arith, length-append k (n ∷ t)))))

dumped_end : (fuel : ℕ) → 0 < fuel → load_fields fuel [] ≡ some end
dumped_end zero h = absurd (omega arith)
dumped_end (suc fuel) h = refl

dump_fields-Loads : (fields : Fields) → Loads fields (dump_fields fields)
dump_fields-Loads end = dumped_end
dump_fields-Loads (field k (str s) fields) =
    load_text_field k s fields (dump_fields fields) (dump_fields-Loads fields)
dump_fields-Loads (field k (nonneg n) fields) =
    load_number_field k n fields (dump_fields fields) (dump_fields-Loads fields)
dump_fields-Loads other = tt

loads_dumped : (v : Value) (t : Text) → dump_object v ≡ some t → load_object t ≡ some v
loads_dumped (dict fields) t e =
    let l : Loads fields (some t) = rw e at (dump_fields-Loads fields) in
    ap as_dict (l (suc (length t)) (omega arith))
loads_dumped other t e = cc

all_bytes-All : (t : Text) → all_bytes t ≡ true → All IsByte t
all_bytes-All [] h = tt
all_bytes-All (c ∷ t) h = ground (arith, all_bytes-All t)

encoded_same : (t b : Text) → encode_bytes t ≡ some b → (all_bytes t ≡ true) × (t ≡ b)
encoded_same t b h = elim (Bool-cases (all_bytes t)) [
  | inl yes_bytes ↦ (yes_bytes, some-injective _ _ (rw yes_bytes at h))
  | inr other ↦ cc (rw other at h)
]

pub field_codec-IsLossless : IsLossless field_codec
field_codec-IsLossless = record {
  decode-encode = λ t b h. ap some (sym (encoded_same t b h).1);
  encode-bytes = λ t b h.
      let (bytes, same) = encoded_same t b h in subst (All IsByte) same (all_bytes-All t bytes);
  loads-dumps = loads_dumped;
}
