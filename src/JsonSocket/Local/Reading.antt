-- ===== src/JsonSocket/Local/Reading.antt =====
-- `read_obj` is local.
use mathlib.Core.Path.{subst}
use python_json_socket.Prelude.{
  ℕ, suc, ◌≡◌, refl, sym, Bool, true, false, List, [], ◌∷◌, Option, none, some, ltb, ◌==◌, text_eq,
  if◌then◌else◌,
}
use python_json_socket.Framing.{checksum_of, frame_magic, frame_header_size}
use python_json_socket.Framing.Header.{unpack_header}
use python_json_socket.Codec.{Codec, Value}
use python_json_socket.JsonSocket.{
  State, Result, ok, raise, framing, Framing, oversize, invalid_magic, checksum_mismatch,
  invalid_utf8, struct_error, or_raise, pure, assign, put_sock, ◌>>=◌,
}
use python_json_socket.JsonSocket.Close.{close_connection}
use python_json_socket.JsonSocket.Read.{
  ReadExit, complete, timed_out, ended, failed, cut_off, read_loop, finish_read, read_on, read,
}
use python_json_socket.JsonSocket.Message.{
  reject, check_limit, check_read_size, check_header, read_header, or_reject, or_refuse,
  decode_payload, read_payload, read_obj,
}
use python_json_socket.JsonSocket.Local.{
  Local, Local-refl, Local-trans, IsLocal, put_sock-Local, close_connection-Local, bind-IsLocal,
  or_raise-IsLocal, if-IsLocal, assign-IsLocal,
}

finish_read-Local :
    (h : ℕ) (allow : Bool) (exit : ReadExit) (s : State)
    → s.self.conn ≡ some h
    → Local h s (finish_read allow exit s).1
finish_read-Local h allow (complete all) s conn = Local-refl h s
finish_read-Local h true (timed_out []) s conn = Local-refl h s
finish_read-Local h false (timed_out []) s conn = close_connection-Local h s conn
finish_read-Local h true (timed_out (b ∷ bs)) s conn = close_connection-Local h s conn
finish_read-Local h false (timed_out (b ∷ bs)) s conn = close_connection-Local h s conn
finish_read-Local h allow ended s conn = close_connection-Local h s conn
finish_read-Local h allow failed s conn = Local-refl h s
finish_read-Local h allow cut_off s conn = Local-refl h s

read-IsLocal : (h size : ℕ) (allow : Bool) → IsLocal h (read size allow)
unfolding read
read-IsLocal h size allow s conn =
    let run = read_loop (suc size) size [] (s.os h) in
    subst (λ o. Local h s (read_on o size allow s).1) (sym conn)
      (Local-trans h s (put_sock h run.1 s) _ (put_sock-Local h run.1 s)
        (finish_read-Local h allow run.0 (put_sock h run.1 s) conn))

or_refuse-IsLocal : (h : ℕ) (o : Option Value) (syntax : Bool) → IsLocal h (or_refuse o syntax)
or_refuse-IsLocal h (some v) syntax s conn = Local-refl h s
or_refuse-IsLocal h none true s conn = close_connection-Local h s conn
or_refuse-IsLocal h none false s conn = Local-refl h s

or_reject-IsLocal : {A : Type 0} (h : ℕ) (e : Framing) (o : Option A) → IsLocal h (or_reject e o)
or_reject-IsLocal h e none s conn = close_connection-Local h s conn
or_reject-IsLocal h e (some a) s conn = Local-refl h s

module _ (c : Codec) (h : ℕ) where
  check_read_size-IsLocal : (size : ℕ) → IsLocal h (check_read_size size)
  check_read_size-IsLocal size s conn = by_limit s.self.max_message_size
    where
      by_limit : (limit : Option ℕ) → Local h s (check_limit limit size s).1
      by_limit none = Local-refl h s
      by_limit (some limit) = over_limit (ltb limit size)
        where
          over_limit :
              (over : Bool)
              → Local h s
                  (if◌then◌else◌ {A = Result (Unit {0}) × State} over
                    (raise (framing (oversize size limit)), close_connection s)
                    (ok tt, s)).1
          over_limit true = close_connection-Local h s conn
          over_limit false = Local-refl h s

  check_header-IsLocal : (fields : List ℕ × ℕ × ℕ) → IsLocal h (check_header fields)
  check_header-IsLocal (magic, size, checksum) =
      if-IsLocal h (text_eq magic frame_magic) _ (reject invalid_magic)
        (bind-IsLocal h (check_read_size size) (λ _. pure (size, checksum))
          (check_read_size-IsLocal size) (λ a s conn. Local-refl h s))
        (close_connection-Local h)

  read_header-IsLocal : IsLocal h read_header
  unfolding read_header
  read_header-IsLocal =
      bind-IsLocal h (read frame_header_size true) _ (read-IsLocal h frame_header_size true)
        (λ header.
          bind-IsLocal h (or_raise struct_error (unpack_header header)) check_header
            (or_raise-IsLocal h struct_error (unpack_header header)) check_header-IsLocal)

  decode_payload-IsLocal :
      (checksum : ℕ) (payload : List ℕ) → IsLocal h (decode_payload c checksum payload)
  decode_payload-IsLocal checksum payload =
      if-IsLocal h (checksum_of payload == checksum) _ (reject checksum_mismatch)
        (bind-IsLocal h (or_reject invalid_utf8 (c.decode payload)) _
          (or_reject-IsLocal h invalid_utf8 (c.decode payload))
          (λ decoded. or_refuse-IsLocal h (c.loads decoded) (c.is_decode_error decoded)))
        (close_connection-Local h)

  read_payload-IsLocal : (fields : ℕ × ℕ) → IsLocal h (read_payload c fields)
  read_payload-IsLocal (size, checksum) =
      bind-IsLocal {B = Value} h (assign (λ self. record self { last_read_size = some size }))
        (λ _. read size false >>= decode_payload c checksum)
        (assign-IsLocal h _ (λ o. refl) (λ o. refl) (λ o. refl) (λ o. refl))
        (λ _.
          bind-IsLocal h (read size false) (decode_payload c checksum) (read-IsLocal h size false)
            (decode_payload-IsLocal checksum))

  pub read_obj-IsLocal : IsLocal h (read_obj c)
  unfolding read_obj
  read_obj-IsLocal =
      bind-IsLocal h read_header (read_payload c) read_header-IsLocal read_payload-IsLocal
