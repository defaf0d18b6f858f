-- ===== src/JsonSocket/Write/Sound.antt =====
-- `send_obj` on an open connection, whatever the other end does: what has been handed over, and
-- what each exception means.
use mathlib.Core.Path.{subst}
use python_json_socket.Prelude.{
  ℕ, ◌^◌, ◌≤◌, ◌<◌, ◌≡◌, refl, sym, true, List, ◌++◌, length, Option, none, some, Text, ltb, ltb→lt,
  ltb_false→le, Bool-cases, inl, inr,
}
use python_json_socket.Framing.{header_of}
use python_json_socket.Framing.Frame.{header_bytes, header_of_fits, header_of_too_long}
use python_json_socket.Codec.{Codec, Value}
use python_json_socket.JsonSocket.{
  State, M, Result, ok, raise, broken, type_error, encode_error, struct_error, too_large, or_raise,
  ◌>>=◌,
}
use python_json_socket.JsonSocket.Close.Closed.{IsClosable}
use python_json_socket.JsonSocket.Write.{
  send_bytes, send_payload, send_obj, send_text, check_send_limit,
}
use python_json_socket.JsonSocket.Write.Outcome.{
  IsCut, IsSent, SendOutcome, send_bytes-SendOutcome, both_outcome,
}

abbrev pub frame : List ℕ → List ℕ
frame payload = header_bytes payload ++ payload

abbrev noted : List ℕ → State → State
noted payload s = record s { self = record s.self { last_send_size = some (length payload) } }

-- The outcomes once the payload is there. A refused size and a length that the header cannot hold
-- hand nothing over.
abbrev PayloadOutcome : List ℕ → ℕ → State → Result (Unit {0}) × State → Type 0
PayloadOutcome payload h s (ok _, after) = IsSent (frame payload) h s after
PayloadOutcome payload h s (raise broken, after) = IsCut (frame payload) h s after
PayloadOutcome payload h s (raise (too_large size limit), after) =
    (after.os ≡ s.os)
    × (size ≡ length payload)
    × (s.self.max_message_size ≡ some limit)
    × (limit < length payload)
PayloadOutcome payload h s (raise struct_error, after) =
    (after.os ≡ s.os) × (2 ^ 32 ≤ length payload)
PayloadOutcome payload h s (raise other, after) = ⊥

sent_outcome :
    (payload : List ℕ) (h : ℕ) (s : State) (r : Result (Unit {0}) × State)
    → SendOutcome (frame payload) h s r
    → PayloadOutcome payload h s r
sent_outcome payload h s (ok _, t) o = o
sent_outcome payload h s (raise broken, t) o = o
sent_outcome payload h s (raise other, t) o = absurd o

module _ (payload : List ℕ) (h : ℕ) (s : State) (conn : s.self.conn ≡ some h)
    (closable : IsClosable s) (still : (s.os h).is_open ≡ true) where
  packed_outcome : PayloadOutcome payload h s (
      (or_raise struct_error (header_of payload) >>= λ header.
      send_bytes header >>= λ _. send_bytes payload)
        s)
  packed_outcome = elim (Bool-cases (ltb (length payload) (2 ^ 32))) [
    | inl small ↦ rw (header_of_fits payload (ltb→lt _ _ small)) (
        sent_outcome payload h s _ (
          both_outcome (header_bytes payload) payload h s (send_bytes (header_bytes payload) s) conn
            closable (send_bytes-SendOutcome h s conn closable (header_bytes payload) still)))
    | inr large ↦
        rw (header_of_too_long payload (ltb_false→le _ _ large)) (refl, ltb_false→le _ _ large)
  ]

module _ (payload : List ℕ) (h : ℕ) (s : State) where
  abbrev pack_and_send : M (Unit {0})
  pack_and_send = or_raise struct_error (header_of payload) >>= λ header.
      send_bytes header >>= λ _. send_bytes payload

  limit_outcome :
      (limit : Option ℕ)
      → s.self.max_message_size ≡ limit
      → PayloadOutcome payload h s (pack_and_send s)
      → PayloadOutcome payload h s
          ((check_send_limit limit (length payload) >>= λ _. pack_and_send) s)
  limit_outcome none e o = o
  limit_outcome (some limit) e o = elim (Bool-cases (ltb limit (length payload))) [
    | inl over ↦ rw over (refl, refl, e, ltb→lt _ _ over)
    | inr fits ↦ rw fits o
  ]

-- The value was dumped to a text, and that encoded to the payload.
pub record IsEncoded (c : Codec) (v : Value) (payload : List ℕ) : Type 0 where
  pub text : Text
  pub dumped : c.dumps v ≡ some text
  pub encoded : c.encode text ≡ some payload

-- The outcomes of `send_obj`: the two encodings may fail, and then nothing has changed.
abbrev pub ObjOutcome : Codec → Value → ℕ → State → Result (Unit {0}) × State → Type 0
ObjOutcome c v h s (raise type_error, after) = (after ≡ s) × (c.dumps v ≡ none)
ObjOutcome c v h s (raise encode_error, after) =
    (text : Text) × (after ≡ s) × (c.dumps v ≡ some text) × (c.encode text ≡ none)
ObjOutcome c v h s r =
    (payload : List ℕ) × IsEncoded c v payload × PayloadOutcome payload h (noted payload s) r

encoded_outcome :
    (c : Codec) (v : Value) (h : ℕ) (s : State) (payload : List ℕ) (r : Result (Unit {0}) × State)
    → IsEncoded c v payload
    → PayloadOutcome payload h (noted payload s) r
    → ObjOutcome c v h s r
encoded_outcome c v h s payload (raise type_error, t) e o = absurd o
encoded_outcome c v h s payload (raise encode_error, t) e o = absurd o
encoded_outcome c v h s payload (raise other, t) e o = (payload, e, o)
encoded_outcome c v h s payload (ok _, t) e o = (payload, e, o)

module _ (c : Codec) (v : Value) (main h : ℕ) (s : State) where
  payload_outcome :
      (payload : List ℕ)
      → s.self.conn ≡ some h
      → IsClosable s
      → (s.os h).is_open ≡ true
      → PayloadOutcome payload h (noted payload s) (send_payload payload s)
  unfolding send_payload
  payload_outcome payload conn closable still =
      limit_outcome payload h (noted payload s) s.self.max_message_size refl
        (packed_outcome payload h (noted payload s) conn closable still)

  text_outcome :
      (text : Text) (o : Option (List ℕ))
      → s.self.conn ≡ some h
      → IsClosable s
      → (s.os h).is_open ≡ true
      → c.dumps v ≡ some text
      → c.encode text ≡ o
      → ObjOutcome c v h s ((or_raise encode_error o >>= send_payload) s)
  text_outcome text none conn closable still d e = (text, refl, d, e)
  text_outcome text (some payload) conn closable still d e =
      encoded_outcome c v h s payload (send_payload payload s)
        (record { text = text; dumped = d; encoded = e })
        (payload_outcome payload conn closable still)

  value_outcome :
      (o : Option Text)
      → s.self.conn ≡ some h
      → IsClosable s
      → (s.os h).is_open ≡ true
      → c.dumps v ≡ o
      → ObjOutcome c v h s ((or_raise type_error o >>= send_text (some main) c) s)
  value_outcome none conn closable still d = (refl, d)
  value_outcome (some text) conn closable still d =
      text_outcome text (c.encode text) conn closable still d refl

  -- On an open connection `send_obj` hands over the whole frame and keeps the connection, or
  -- raises. A value that does not dump or encode changes nothing; a payload over the limit, or of
  -- 2 ^ 32 bytes or more, leaves every socket as it was; `RuntimeError` means that a proper prefix
  -- of the frame was handed over and the connection was closed. Nothing else is raised.
  pub send_obj_outcomes :
      s.self.socket ≡ some main
      → s.self.conn ≡ some h
      → IsClosable s
      → (s.os h).is_open ≡ true
      → ObjOutcome c v h s (send_obj c v s)
  unfolding send_obj
  send_obj_outcomes m conn closable still =
      subst (λ o. ObjOutcome c v h s ((or_raise type_error (c.dumps v) >>= send_text o c) s))
        (sym m) (value_outcome (c.dumps v) conn closable still refl)
