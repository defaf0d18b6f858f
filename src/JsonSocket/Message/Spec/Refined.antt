-- ===== src/JsonSocket/Message/Spec/Refined.antt =====
-- `read_obj` keeps its promise: it returns exactly what the bytes to receive begin with.
use mathlib.Core.Path.{subst}
use mathlib.Core.Option.{some-injective}
use python_json_socket.Prelude.{
  leb→le, ℕ, ◌≡◌, ◌≢◌, refl, sym, ap, ◌∙◌, Bool, true, ◌&&◌, List, [], ◌∷◌, ◌++◌, Option, none,
  some, Text, text_eq, text_eq_iff, text_eq_refl, length, take, drop, leb, ◌==◌, ==_iff, ==_refl,
  arith, Bool-cases, inl, inr, length-take, length-append, take-append, drop-append,
  take-append-drop, ◌↔◌,
}
use python_json_socket.Framing.{frame_magic, frame_header_size, checksum_of}
use python_json_socket.Framing.Header.{unpack_header}
use python_json_socket.Codec.{Codec, Value}
use python_json_socket.JsonSocket.{State, Result, ok, raise}
use python_json_socket.JsonSocket.Close.Closed.{IsClosable}
use python_json_socket.JsonSocket.Read.Exact.{HasStream}
use python_json_socket.JsonSocket.Message.{read_obj}
use python_json_socket.JsonSocket.Message.Framed.{Fits, Delivers, read_obj-announced}
use python_json_socket.JsonSocket.Message.Sound.{IsMessage, MessageOutcome, read_obj_outcomes}
use python_json_socket.JsonSocket.Message.Spec.{
  fits_limit, parsed, loaded, with_header, first_message,
}

fits_limit-Fits : (limit : Option ℕ) (size : ℕ) → (fits_limit limit size ≡ true) ↔ Fits limit size
fits_limit-Fits none size = ground arith
fits_limit-Fits (some limit) size = ground arith

length-unpack_header :
    (header : List ℕ) (fields : List ℕ × ℕ × ℕ)
    → unpack_header header ≡ some fields
    → length header ≡ frame_header_size
unfolding unpack_header
length-unpack_header (m ∷ n ∷ o ∷ p ∷ a ∷ b ∷ c ∷ d ∷ e ∷ f ∷ g ∷ h ∷ []) fields q = refl
length-unpack_header _ fields q = cc

three_true : (a b d : Bool) → (a && b && d) ≡ true → (a ≡ true) × ((b ≡ true) × (d ≡ true))
three_true a b d h = ground arith

module _ (c : Codec) (limit : Option ℕ) where
  -- The parser finds what there is.
  with_header_complete :
      (payload rest : List ℕ) (text : Text) (v : Value)
      → Fits limit (length payload)
      → c.decode payload ≡ some text
      → c.loads text ≡ some v
      → with_header c limit
          (some (frame_magic, length payload, checksum_of payload))
          (payload ++ rest)
        ≡ some (v, rest)
  with_header_complete payload rest text v fits decoded loaded =
      let within : leb (length payload) (length (payload ++ rest)) ≡ true =
        ground (arith, length-append payload rest) in
      rw
        (
          text_eq_refl frame_magic,
          (fits_limit-Fits limit (length payload)).1 fits,
          within,
          take-append payload rest,
          drop-append payload rest,
          ==_refl (checksum_of payload),
          decoded,
          loaded,
        )
        refl

  first_message_complete :
      (bytes : List ℕ) (v : Value) (rest : List ℕ)
      → IsMessage c limit bytes v rest
      → first_message c limit bytes ≡ some (v, rest)
  unfolding first_message
  first_message_complete bytes v rest m =
      let twelve = length-unpack_header m.header _ m.unpacked in
      let tail = m.payload ++ rest in
      let front : take frame_header_size (m.header ++ tail) ≡ m.header =
        subst (λ n. take n (m.header ++ tail) ≡ m.header) twelve (take-append m.header tail) in
      let back : drop frame_header_size (m.header ++ tail) ≡ tail =
        subst (λ n. drop n (m.header ++ tail) ≡ tail) twelve (drop-append m.header tail) in
      rw (m.split, front, back, m.unpacked)
        (with_header_complete m.payload rest m.text v m.fits m.decoded m.loaded)

  -- What the parser finds is there.
  module _ (bytes header tail : List ℕ) (split : bytes ≡ header ++ tail) (v : Value)
      (rest : List ℕ) where
    payload_sound :
        (payload left : List ℕ)
        → unpack_header header ≡ some (frame_magic, length payload, checksum_of payload)
        → Fits limit (length payload)
        → tail ≡ payload ++ left
        → (o : Option Text) → c.decode payload ≡ o
        → loaded c o left ≡ some (v, rest)
        → IsMessage c limit bytes v rest
    payload_sound payload left unpacked fits cut none d e = cc
    payload_sound payload left unpacked fits cut (some text) d e = value_sound (c.loads text) refl e
      where
        value_sound :
            (o : Option Value)
            → c.loads text ≡ o
            → parsed o left ≡ some (v, rest)
            → IsMessage c limit bytes v rest
        value_sound none l e = cc
        value_sound (some w) l e =
            let same = some-injective _ _ e in
            record {
              header = header;
              payload = payload;
              text = text;
              split = split ∙ ap (λ t. header ++ t) (cut ∙ ap (λ p. payload ++ p.1) same);
              unpacked = unpacked;
              fits = fits;
              decoded = d;
              loaded = l ∙ ap (λ p. some p.0) same;
            }

    fields_sound :
        (magic : List ℕ) (size checksum : ℕ)
        → unpack_header header ≡ some (magic, size, checksum)
        → with_header c limit (some (magic, size, checksum)) tail ≡ some (v, rest)
        → IsMessage c limit bytes v rest
    fields_sound magic size checksum q e =
        elim (Bool-cases
          (text_eq magic frame_magic && fits_limit limit size && leb size (length tail))) [
            | inr bad ↦ cc (rw bad at e)
            | inl good ↦ elim (Bool-cases (checksum_of (take size tail) == checksum)) [
              | inr bad ↦ cc (rw (good, bad) at e)
              | inl same ↦
                  let payload = take size tail in
                  let (is_magic, (within, enough)) = three_true _ _ _ good in
                  let long : length payload ≡ size =
                    omega (arith, length-take size tail, leb→le size (length tail) enough) in
                  payload_sound payload (drop size tail)
                    (q
                      ∙ ap (λ m. some (m, size, checksum))
                          ((text_eq_iff magic frame_magic).0 is_magic)
                      ∙ ap (λ n. some (frame_magic, n, checksum)) (sym long)
                      ∙ ap (λ k. some (frame_magic, length payload, k)) (sym ((==_iff _ _).0 same)))
                    (rw long ((fits_limit-Fits limit size).0 within))
                    (sym (take-append-drop size tail)) (c.decode payload) refl
                    (rw (good, same) at e)
            ]
          ]

    header_sound :
        (o : Option (List ℕ × ℕ × ℕ))
        → unpack_header header ≡ o
        → with_header c limit o tail ≡ some (v, rest)
        → IsMessage c limit bytes v rest
    header_sound none q e = cc
    header_sound (some (magic, size, checksum)) q e = fields_sound magic size checksum q e

  first_message_sound :
      (bytes : List ℕ) (v : Value) (rest : List ℕ)
      → first_message c limit bytes ≡ some (v, rest)
      → IsMessage c limit bytes v rest
  unfolding first_message
  first_message_sound bytes v rest e =
      header_sound bytes (take frame_header_size bytes) (drop frame_header_size bytes)
        (sym (take-append-drop frame_header_size bytes)) v rest
        (unpack_header (take frame_header_size bytes)) refl e

-- What `read_obj` does where the bytes begin with this message, or with none.
abbrev pub Keeps : Codec → ℕ → State → Option (Value × List ℕ) → Type 0
Keeps c h s none = (v : Value) → (read_obj c s).0 ≢ ok v
Keeps c h s (some (v, rest)) = ((read_obj c s).0 ≡ ok v) × HasStream h (read_obj c s).1 rest

module _ (c : Codec) (h : ℕ) (s : State) (conn : s.self.conn ≡ some h) (closable : IsClosable s)
    (bytes : List ℕ) (st : HasStream h s bytes) where
  returned_none :
      (v : Value) (r : Result Value × State)
      → first_message c s.self.max_message_size bytes ≡ none
      → MessageOutcome c h s bytes r
      → r.0 ≢ ok v
  returned_none v (ok w, t) n (m, up) =
      λ e. cc (sym n ∙ first_message_complete c s.self.max_message_size bytes w _ m)
  returned_none v (raise x, t) n o = λ e. cc

  pub first_message-none :
      first_message c s.self.max_message_size bytes ≡ none → (v : Value) → (read_obj c s).0 ≢ ok v
  first_message-none n v =
      returned_none v (read_obj c s) n (read_obj_outcomes c h s conn closable bytes st)

  -- A message that is there, with its length.
  pub first_message-Delivers :
      (v : Value) (rest : List ℕ)
      → first_message c s.self.max_message_size bytes ≡ some (v, rest)
      → (size : ℕ) × Delivers c v size h rest s
  first_message-Delivers v rest e =
      let m = first_message_sound c s.self.max_message_size bytes v rest e in
      (
        length m.payload,
        read_obj-announced c m.header m.payload rest h s m.text v
            (length-unpack_header m.header _ m.unpacked, m.unpacked) m.decoded m.loaded m.fits
            (record { is_conn = st.is_conn; is_open = st.is_open; stream = st.stream ∙ m.split }),
      )

  refined :
      (o : Option (Value × List ℕ))
      → first_message c s.self.max_message_size bytes ≡ o
      → Keeps c h s o
  refined none n = first_message-none n
  refined (some (v, rest)) e =
      let (size, d) = first_message-Delivers v rest e in
      (
        ap (λ (r : Result Value × State). r.0) d.result,
        subst (λ (r : Result Value × State). HasStream h r.1 rest) (sym d.result) d.has_rest,
      )

  -- On an open connection with any bytes to receive, in whatever segments, and whatever error, timeout
  -- or end comes behind them: `read_obj` returns a value exactly where `first_message` finds one in
  -- the bytes, returns this value, and leaves the bytes behind it to receive.
  pub read_obj-first_message : Keeps c h s (first_message c s.self.max_message_size bytes)
  read_obj-first_message = refined (first_message c s.self.max_message_size bytes) refl
