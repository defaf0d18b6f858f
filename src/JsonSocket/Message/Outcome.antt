-- ===== src/JsonSocket/Message/Outcome.antt =====
-- Every way in which `read_obj` may end on an open connection.
use mathlib.Core.Path.{subst}
use python_json_socket.Prelude.{
  ℕ, ◌≡◌, ap, ◌∙◌, true, List, [], ◌++◌, Option, none, some, ltb, ltb_false→le, text_eq,
  text_eq_iff, Bool-cases, inl, inr, ◌&&◌, same_ref,
}
use python_json_socket.Framing.{frame_magic, frame_header_size}
use python_json_socket.Framing.Header.{unpack_header, unpack_header-twelve}
use python_json_socket.Os.Stream.{pending}
use python_json_socket.JsonSocket.{
  State, JsonSocket, Result, ok, raise, Exc, broken, socket_timeout, struct_error, framing,
  read_timeout, or_raise, continue, pure, ◌>>=◌, ◌>>◌,
}
use python_json_socket.JsonSocket.Close.{close_connection}
use python_json_socket.JsonSocket.Close.Closed.{
  IsClosable, close_connection-closed, close_connection-self,
}
use python_json_socket.JsonSocket.Read.{read}
use python_json_socket.JsonSocket.Read.Exact.{HasStream}
use python_json_socket.JsonSocket.Read.Outcome.{ReadOutcome, IsShut, Keeps, read-ReadOutcome}
use python_json_socket.JsonSocket.Message.{check_header, check_limit, read_header}
use python_json_socket.JsonSocket.Message.Framed.{Fits}

-- The outcomes of `_read_header`: twelve bytes with the magic and a size within the limit; a
-- timeout before the first byte; an `OSError`; or an error that closed the connection.
abbrev pub HeaderOutcome : ℕ → State → List ℕ → Result (ℕ × ℕ) × State → Type 0
HeaderOutcome h s bytes (ok (size, checksum), after) =
    (header : List ℕ) × (unpack_header header ≡ some (frame_magic, size, checksum))
    × Fits s.self.max_message_size size
    × (bytes ≡ header ++ pending (after.os h).inbound)
    × Keeps h s after
HeaderOutcome h s bytes (raise socket_timeout, after) = (bytes ≡ []) × Keeps h s after
HeaderOutcome h s bytes (raise Exc.os_error, after) = Keeps h s after
HeaderOutcome h s bytes (raise broken, after) = IsShut h s after
HeaderOutcome h s bytes (raise (framing e), after) = IsShut h s after
HeaderOutcome h s bytes (raise other, after) = ⊥

-- The checked header, from twelve bytes that were read.
module _ (h : ℕ) (s : State) (conn : s.self.conn ≡ some h) (closable : IsClosable s) where
  reject-IsShut : (t : State) → Keeps h s t → IsShut h s (close_connection t)
  reject-IsShut t k = record {
    same_self = close_connection-self t ∙ k.same_self;
    is_shut =
        close_connection-closed h t (ap (λ (o : JsonSocket). o.conn) k.same_self ∙ conn)
          (ap (λ (o : JsonSocket). o.is_server && same_ref o.conn o.socket) k.same_self ∙ closable);
  }

  module _ (bytes header : List ℕ) (t : State) (k : Keeps h s t)
      (split : bytes ≡ header ++ pending (t.os h).inbound) where
    accepted :
        (limit : Option ℕ) (size checksum : ℕ)
        → limit ≡ s.self.max_message_size
        → Fits limit size
        → unpack_header header ≡ some (frame_magic, size, checksum)
        → HeaderOutcome h s bytes (ok (size, checksum), t)
    accepted limit size checksum e fits u = (header, u, subst (λ m. Fits m size) e fits, split, k)

    checked_limit :
        (limit : Option ℕ) (size checksum : ℕ)
        → limit ≡ s.self.max_message_size
        → unpack_header header ≡ some (frame_magic, size, checksum)
        → HeaderOutcome h s bytes ((check_limit limit size >> pure (size, checksum)) t)
    checked_limit none size checksum e u = accepted none size checksum e tt u
    checked_limit (some limit) size checksum e u = elim (Bool-cases (ltb limit size)) [
      | inl over ↦ rw over (reject-IsShut t k)
      | inr fits ↦ rw fits (accepted (some limit) size checksum e (ltb_false→le _ _ fits) u)
    ]

    checked_header :
        (magic : List ℕ) (size checksum : ℕ)
        → unpack_header header ≡ some (magic, size, checksum)
        → HeaderOutcome h s bytes (check_header (magic, size, checksum) t)
    checked_header magic size checksum u = elim (Bool-cases (text_eq magic frame_magic)) [
      | inl same ↦ rw same (
          checked_limit t.self.max_message_size size checksum
            (ap (λ (o : JsonSocket). o.max_message_size) k.same_self)
            (u ∙ ap (λ m. some (m, size, checksum)) ((text_eq_iff magic frame_magic).0 same)))
      | inr differ ↦ rw differ (reject-IsShut t k)
    ]

  header_unpacked :
      (bytes header : List ℕ) (t : State)
      → ReadOutcome frame_header_size true h s bytes (ok header, t)
      → HeaderOutcome h s bytes ((or_raise struct_error (unpack_header header) >>= check_header) t)
  header_unpacked bytes header t (twelve, split, k) =
      let (magic, size, checksum, u) = unpack_header-twelve header twelve in
      rw u (checked_header bytes header t k split magic size checksum u)

  header_read :
      (bytes : List ℕ) (r : Result (List ℕ) × State)
      → ReadOutcome frame_header_size true h s bytes r
      → HeaderOutcome h s bytes (
          continue r.0
            (λ header. or_raise struct_error (unpack_header header) >>= check_header)
            r.1)
  header_read bytes (ok header, t) o = header_unpacked bytes header t o
  header_read bytes (raise socket_timeout, t) o = (o.1, o.2)
  header_read bytes (raise Exc.os_error, t) o = o.0
  header_read bytes (raise broken, t) o = o.0
  header_read bytes (raise (framing read_timeout), t) o = o.0
  header_read bytes (raise other, t) o = absurd o

  pub read_header-HeaderOutcome :
      (bytes : List ℕ) → HasStream h s bytes → HeaderOutcome h s bytes (read_header s)
  unfolding read_header
  read_header-HeaderOutcome bytes st =
      header_read bytes (read frame_header_size true s)
        (read-ReadOutcome h s conn closable frame_header_size true bytes st)
