-- ===== src/Stats/Failures/Kinds.antt =====
-- Every `FramingError` is counted under its own kind, though the kind is read off its text.
use python_json_socket.Prelude.{
  ℕ, zero, suc, ◌+◌, ◌/◌, ◌%◌, ◌<◌, ◌≡◌, refl, Bool, true, false, ◌||◌, [], ◌∷◌, ◌++◌, Text, codes,
  starts_with, contains, same_code, arith,
}
use python_json_socket.JsonSocket.{
  Framing, read_timeout, invalid_magic, checksum_mismatch, invalid_utf8, invalid_json, oversize,
}
use python_json_socket.Stats.Identity.{digits, decimal}
use python_json_socket.Stats.Failures.{message, framing_failure_kind}

-- The key of `failures` that stands for the error.
abbrev pub kind_of : Framing → Text
kind_of read_timeout = codes "timeout"
kind_of invalid_magic = codes "bad_header"
kind_of checksum_mismatch = codes "bad_crc"
kind_of invalid_utf8 = codes "invalid_utf8"
kind_of invalid_json = codes "invalid_json"
kind_of (oversize size limit) = codes "oversize"

-- The character occurs in the text.
unfoldable has : ℕ → Text → Bool
has c [] = false
has c (d ∷ t) = same_code c d || has c t

has-append : (c : ℕ) (s t : Text) → has c (s ++ t) ≡ (has c s || has c t)
unfolding has
has-append c [] t = refl
has-append c (d ∷ s) t = ground (arith, has-append c s t)

starts_with-has : (c : ℕ) (p t : Text) → has c p ≡ true → has c t ≡ false → starts_with p t ≡ false
unfolding has starts_with
starts_with-has c [] t h l = cc
starts_with-has c (a ∷ p) [] h l = refl
starts_with-has c (a ∷ p) (d ∷ t) h l = ground (arith, starts_with-has c p t)

contains-has : (c : ℕ) (p t : Text) → has c p ≡ true → has c t ≡ false → contains p t ≡ false
unfolding contains has
contains-has c p [] h l = starts_with-has c p [] h l
contains-has c p (d ∷ t) h l = ground (arith, starts_with-has c p (d ∷ t) h l, contains-has c p t h)

starts_with-append : (p t : Text) → starts_with p (p ++ t) ≡ true
unfolding starts_with
starts_with-append [] t = refl
starts_with-append (c ∷ p) t = ground (arith, starts_with-append p t)

contains-starts_with : (p t : Text) → starts_with p t ≡ true → contains p t ≡ true
unfolding contains
contains-starts_with p [] h = h
contains-starts_with p (d ∷ t) h = rw h refl

contains-append : (p s t : Text) → contains p t ≡ true → contains p (s ++ t) ≡ true
unfolding contains
contains-append p [] t h = h
contains-append p (d ∷ s) t h = ground (arith, contains-append p s t h)

-- A decimal has no character beyond the digits.
digits-has :
    (c : ℕ) (fuel n : ℕ) (tail : Text)
    → 57 < c
    → has c tail ≡ false
    → has c (digits fuel n tail) ≡ false
unfolding digits has
digits-has c zero n tail big l = l
digits-has c (suc fuel) n tail big l =
    ground (arith, digits-has c fuel (n / 10) ((48 + n % 10) ∷ tail) big)

decimal-has : (c : ℕ) (n : ℕ) → 57 < c → has c (decimal n) ≡ false
unfolding decimal has
decimal-has c n big = digits-has c (suc n) n [] big refl

-- The text of an oversize error, and the character it is asked for.
oversize-has :
    (c size limit : ℕ)
    → 57 < c
    → has c (codes "message length ") ≡ false
    → has c (codes " exceeds max_message_size ") ≡ false
    → has c (message (oversize size limit)) ≡ false
unfolding message
oversize-has c size limit big h k =
    let end = codes " exceeds max_message_size " ++ decimal limit in
    let tail = has-append c (codes " exceeds max_message_size ") (decimal limit) in
    rw
      (
        has-append c (codes "message length ") (decimal size ++ end),
        has-append c (decimal size) end,
        tail,
        h,
        k,
        decimal-has c size big,
        decimal-has c limit big,
      )
      refl

oversize-contains :
    (size limit : ℕ)
    → contains (codes "exceeds max_message_size") (message (oversize size limit)) ≡ true
unfolding message
oversize-contains size limit =
    let pattern = codes "exceeds max_message_size" in
    let end = codes " exceeds max_message_size " ++ decimal limit in
    contains-append pattern (codes "message length ") (decimal size ++ end) (
      contains-append pattern (decimal size) end (
        contains-append pattern (codes " ") (pattern ++ (codes " " ++ decimal limit)) (
          contains-starts_with pattern _
            (starts_with-append pattern (codes " " ++ decimal limit)))))

-- Whatever sizes the text of an error names, the error is counted under its own kind.
pub framing_failure_kind-kind_of : (e : Framing) → framing_failure_kind (message e) ≡ kind_of e
unfolding framing_failure_kind message contains starts_with has
framing_failure_kind-kind_of read_timeout = refl
framing_failure_kind-kind_of invalid_magic = refl
framing_failure_kind-kind_of checksum_mismatch = refl
framing_failure_kind-kind_of invalid_utf8 = refl
framing_failure_kind-kind_of invalid_json = refl
framing_failure_kind-kind_of (oversize size limit) =
    let msg = message (oversize size limit) in
    rw
      (
        contains-has b'v' (codes "invalid message header magic") msg refl
            (oversize-has b'v' size limit (omega arith) refl refl),
        contains-has b'k' (codes "checksum mismatch") msg refl
            (oversize-has b'k' size limit (omega arith) refl refl),
        oversize-contains size limit,
      )
      refl
