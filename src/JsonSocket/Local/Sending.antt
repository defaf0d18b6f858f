-- ===== src/JsonSocket/Local/Sending.antt =====
-- `send_obj` is local.
use mathlib.Core.Path.{subst}
use python_json_socket.Prelude.{
  ℕ, suc, ◌≡◌, refl, sym, Bool, true, false, List, length, Option, none, some, Text, ltb,
  if◌then◌else◌,
}
use python_json_socket.Framing.{header_of}
use python_json_socket.Codec.{Codec, Value}
use python_json_socket.JsonSocket.{
  State, Result, ok, raise, type_error, encode_error, too_large, struct_error, or_raise, assign,
  put_sock, ◌>>=◌,
}
use python_json_socket.JsonSocket.Write.{
  WriteExit, all_sent, refused, send_loop, finish_send, send_on, send_bytes, check_send_limit,
  check_send_size, send_payload, send_text, send_obj,
}
use python_json_socket.JsonSocket.Local.{
  Local, Local-refl, Local-trans, IsLocal, put_sock-Local, close_connection-Local, bind-IsLocal,
  or_raise-IsLocal, assign-IsLocal,
}

finish_send-Local :
    (h : ℕ) (exit : WriteExit) (s : State) → s.self.conn ≡ some h → Local h s (finish_send exit s).1
finish_send-Local h all_sent s conn = Local-refl h s
finish_send-Local h refused s conn = close_connection-Local h s conn
finish_send-Local h WriteExit.cut_off s conn = Local-refl h s

module _ (h : ℕ) where
  send_bytes-IsLocal : (msg : List ℕ) → IsLocal h (send_bytes msg)
  unfolding send_bytes
  send_bytes-IsLocal msg s conn =
      let run = send_loop (suc (length msg)) msg 0 (s.os h) in
      subst (λ o. Local h s (send_on o msg s).1) (sym conn)
        (Local-trans h s (put_sock h run.1 s) _ (put_sock-Local h run.1 s)
          (finish_send-Local h run.0 (put_sock h run.1 s) conn))

  check_send_size-IsLocal : (size : ℕ) → IsLocal h (check_send_size size)
  check_send_size-IsLocal size s conn = by_limit s.self.max_message_size
    where
      by_limit : (limit : Option ℕ) → Local h s (check_send_limit limit size s).1
      by_limit none = Local-refl h s
      by_limit (some limit) = over_limit (ltb limit size)
        where
          over_limit :
              (over : Bool)
              → Local h s
                  (if◌then◌else◌ {A = Result (Unit {0}) × State} over
                    (raise (too_large size limit), s)
                    (ok tt, s)).1
          over_limit true = Local-refl h s
          over_limit false = Local-refl h s

  send_payload-IsLocal : (payload : List ℕ) → IsLocal h (send_payload payload)
  unfolding send_payload
  send_payload-IsLocal payload =
      bind-IsLocal h (assign (λ self. record self { last_send_size = some (length payload) }))
        (λ _. check_send_size (length payload) >>= λ _.
          or_raise struct_error (header_of payload) >>= λ header.
          send_bytes header >>= λ _. send_bytes payload)
        (assign-IsLocal h _ (λ o. refl) (λ o. refl) (λ o. refl) (λ o. refl))
        (λ _.
          bind-IsLocal h (check_send_size (length payload)) _
            (check_send_size-IsLocal (length payload))
            (λ _.
              bind-IsLocal h (or_raise struct_error (header_of payload)) _
                (or_raise-IsLocal h struct_error (header_of payload))
                (λ header.
                  bind-IsLocal h (send_bytes header) (λ _. send_bytes payload)
                    (send_bytes-IsLocal header) (λ _. send_bytes-IsLocal payload))))

  send_text-IsLocal : (main : Option ℕ) (c : Codec) (msg : Text) → IsLocal h (send_text main c msg)
  send_text-IsLocal none c msg s conn = Local-refl h s
  send_text-IsLocal (some k) c msg s conn =
      bind-IsLocal h (or_raise encode_error (c.encode msg)) send_payload
        (or_raise-IsLocal h encode_error (c.encode msg)) send_payload-IsLocal s conn

  pub send_obj-IsLocal : (c : Codec) (v : Value) → IsLocal h (send_obj c v)
  unfolding send_obj
  send_obj-IsLocal c v s conn =
      bind-IsLocal h (or_raise type_error (c.dumps v)) (send_text s.self.socket c)
        (or_raise-IsLocal h type_error (c.dumps v)) (send_text-IsLocal s.self.socket c) s conn
