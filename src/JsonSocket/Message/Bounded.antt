-- ===== src/JsonSocket/Message/Bounded.antt =====
-- How much `read_obj` takes off the connection.
use mathlib.Core.Path.{subst}
use python_json_socket.Prelude.{
  Text, ◌==◌, ℕ, Bool, ◌+◌, ◌≤◌, ◌≡◌, refl, ap, ◌∙◌, true, false, List, Option, none, some, arith,
  Bool-cases, inl, inr,
}
use python_json_socket.Framing.{frame_header_size}
use python_json_socket.Codec.{Codec, Value}
use python_json_socket.JsonSocket.{
  State, JsonSocket, Result, ok, raise, continue, M, Framing, invalid_utf8, struct_error, or_raise,
  ◌>>=◌,
}
use python_json_socket.JsonSocket.Close.Closed.{IsClosable}
use python_json_socket.JsonSocket.Read.{read}
use python_json_socket.JsonSocket.Read.Exact.{HasStream}
use python_json_socket.JsonSocket.Message.{
  check_header, or_reject, or_refuse, read_header, read_payload, decode_payload, read_obj,
}
use python_json_socket.JsonSocket.Message.Framed.{Fits}
use python_json_socket.Framing.{checksum_of}
use python_json_socket.Framing.Header.{unpack_header}
use python_json_socket.JsonSocket.Message.Outcome.{HeaderOutcome, read_header-HeaderOutcome}
use python_json_socket.JsonSocket.Read.Volume.{volume, Takes, close_connection-inbound, read-Takes}

or_reject-inbound :
    {A : Type 0} (h : ℕ) (e : Framing) (o : Option A) (s : State)
    → ((or_reject e o s).1.os h).inbound ≡ (s.os h).inbound
or_reject-inbound h e none s = close_connection-inbound h s
or_reject-inbound h e (some a) s = refl

or_refuse-inbound :
    (h : ℕ) (o : Option Value) (syntax : Bool) (s : State)
    → ((or_refuse o syntax s).1.os h).inbound ≡ (s.os h).inbound
or_refuse-inbound h (some v) syntax s = refl
or_refuse-inbound h none true s = close_connection-inbound h s
or_refuse-inbound h none false s = refl

decoded-inbound :
    (h : ℕ) (c : Codec) (o : Option Text) (s : State)
    → (((or_reject invalid_utf8 o >>= λ text. or_refuse (c.loads text) (c.is_decode_error text))
          s).1.os
        h).inbound
      ≡ (s.os h).inbound
decoded-inbound h c none s = close_connection-inbound h s
decoded-inbound h c (some text) s = or_refuse-inbound h (c.loads text) (c.is_decode_error text) s

decode_payload-inbound :
    (h : ℕ) (c : Codec) (checksum : ℕ) (payload : List ℕ) (s : State)
    → ((decode_payload c checksum payload s).1.os h).inbound ≡ (s.os h).inbound
decode_payload-inbound h c checksum payload s =
    elim (Bool-cases (checksum_of payload == checksum)) [
      | inl same ↦ rw same (decoded-inbound h c (c.decode payload) s)
      | inr differ ↦ rw differ (close_connection-inbound h s)
    ]

-- A step that takes nothing, behind one that takes at most `n`.
then_nothing :
    {A B : Type 0} (h n : ℕ) (s : State) (f : A → M B) (r : Result A × State)
    → ((a : A) (t : State) → ((f a t).1.os h).inbound ≡ (t.os h).inbound)
    → Takes h n s r.1
    → Takes h n s (continue r.0 f r.1).1
then_nothing h n s f (ok a, t) still taken = omega (arith, taken, ap volume (still a t))
then_nothing h n s f (raise e, t) still taken = taken

check_header-inbound :
    (h : ℕ) (fields : List ℕ × ℕ × ℕ) (s : State)
    → ((check_header fields s).1.os h).inbound ≡ (s.os h).inbound
check_header-inbound h (magic, size, checksum) s = ground (arith, close_connection-inbound h s)

unpacked-inbound :
    (h : ℕ) (o : Option (List ℕ × ℕ × ℕ)) (s : State)
    → (((or_raise struct_error o >>= check_header) s).1.os h).inbound ≡ (s.os h).inbound
unpacked-inbound h none s = refl
unpacked-inbound h (some fields) s = check_header-inbound h fields s

read_header-Takes :
    (h : ℕ) (s : State) → s.self.conn ≡ some h → Takes h frame_header_size s (read_header s).1
unfolding read_header
read_header-Takes h s conn =
    then_nothing h frame_header_size s
      (λ header. or_raise struct_error (unpack_header header) >>= check_header)
      (read frame_header_size true s) (λ header t. unpacked-inbound h (unpack_header header) t)
      (read-Takes h frame_header_size true s conn)

module _ (c : Codec) (h limit : ℕ) (s : State) (conn : s.self.conn ≡ some h)
    (limited : s.self.max_message_size ≡ some limit) where
  read_payload-Takes :
      (size checksum : ℕ) (t : State)
      → t.self.conn ≡ some h
      → Takes h size t (read_payload c (size, checksum) t).1
  read_payload-Takes size checksum t conn' =
      let noted : State = record t { self = record t.self { last_read_size = some size } } in
      then_nothing h size t (decode_payload c checksum) (read size false noted)
        (λ payload u. decode_payload-inbound h c checksum payload u)
        (read-Takes h size false noted conn')

  behind_header :
      (bytes : List ℕ) (r : Result (ℕ × ℕ) × State)
      → HeaderOutcome h s bytes r
      → Takes h frame_header_size s r.1
      → Takes h (frame_header_size + limit) s (continue r.0 (read_payload c) r.1).1
  behind_header bytes (ok (size, checksum), t) (header, unpacked, fits, split, k) taken =
      let within : size ≤ limit = subst (λ m. Fits m size) limited fits in
      omega (
        arith,
        taken,
        within,
        read_payload-Takes size checksum t (ap (λ (o : JsonSocket). o.conn) k.same_self ∙ conn),
      )
  behind_header bytes (raise e, t) o taken = omega (arith, taken)

  -- On an open connection with a limit, whatever arrives and however it ends: `read_obj` takes at
  -- most the twelve bytes of a header and as many bytes as the limit off the connection.
  pub read_obj-Takes :
      (bytes : List ℕ)
      → IsClosable s
      → HasStream h s bytes
      → Takes h (frame_header_size + limit) s (read_obj c s).1
  unfolding read_obj
  read_obj-Takes bytes closable st =
      behind_header bytes (read_header s) (read_header-HeaderOutcome h s conn closable bytes st)
        (read_header-Takes h s conn)
