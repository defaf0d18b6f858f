-- ===== src/JsonSocket/Read/Outcome.antt =====
-- Every way in which `_read` may end on an open connection.
use mathlib.Core.Path.{subst}
use python_json_socket.Prelude.{
  ℕ, suc, ◌<◌, ◌≡◌, refl, sym, ap, ◌∙◌, Bool, true, false, List, [], ◌∷◌, ◌++◌, some, length, arith,
  ==_refl,
}
use python_json_socket.Os.{Sock}
use python_json_socket.Os.Stream.{pending}
use python_json_socket.JsonSocket.{
  State, Result, ok, raise, Exc, broken, socket_timeout, framing, read_timeout, put_sock,
}
use python_json_socket.JsonSocket.Close.{close_connection}
use python_json_socket.JsonSocket.Close.Closed.{
  IsClosable, close_connection-closed, close_connection-self,
}
use python_json_socket.JsonSocket.Read.{
  ReadExit, complete, timed_out, ended, failed, cut_off, read_loop, read, read_on, finish_read,
}
use python_json_socket.JsonSocket.Read.Exact.{HasStream}
use python_json_socket.JsonSocket.Read.Loop.{Ends, read_loop-Ends}

-- The connection was closed, and the object itself is as before.
pub record IsShut (h : ℕ) (s after : State) : Type 0 where
  pub same_self : after.self ≡ s.self
  pub is_shut : (after.os h).is_open ≡ false

-- The connection stays, with the rest of its stream.
pub record Keeps (h : ℕ) (s after : State) : Type 0 where
  pub same_self : after.self ≡ s.self
  pub still_open : (after.os h).is_open ≡ true

-- The outcomes of `_read`: exactly `size` bytes; a timeout before the first byte, where that is
-- allowed; a broken connection or a timeout inside the message, and then it was closed; or an
-- `OSError`, after which it is still open.
abbrev pub ReadOutcome : ℕ → Bool → ℕ → State → List ℕ → Result (List ℕ) × State → Type 0
ReadOutcome size allow h s bytes (ok all, after) =
    (length all ≡ size) × (bytes ≡ all ++ pending (after.os h).inbound) × Keeps h s after
ReadOutcome size allow h s bytes (raise socket_timeout, after) =
    (allow ≡ true) × (bytes ≡ []) × Keeps h s after
ReadOutcome size allow h s bytes (raise broken, after) = IsShut h s after × (length bytes < size)
ReadOutcome size allow h s bytes (raise (framing read_timeout), after) =
    IsShut h s after × (length bytes < size)
ReadOutcome size allow h s bytes (raise Exc.os_error, after) =
    Keeps h s after × (length bytes < size)
ReadOutcome size allow h s bytes (raise other, after) = ⊥

module _ (h : ℕ) (s : State) (conn : s.self.conn ≡ some h) (closable : IsClosable s) where
  shuts : (t : Sock) → IsShut h s (close_connection (put_sock h t s))
  shuts t = record {
    same_self = close_connection-self (put_sock h t s);
    is_shut = close_connection-closed h (put_sock h t s) conn closable;
  }

  keeps : (t : Sock) → t.is_open ≡ true → Keeps h s (put_sock h t s)
  keeps t o = record { same_self = refl; still_open = rw (==_refl h) o }

  finish_read-ReadOutcome :
      (size : ℕ) (allow : Bool) (bytes : List ℕ) (run : ReadExit × Sock)
      → Ends size [] bytes run
      → ReadOutcome size allow h s bytes (finish_read allow run.0 (put_sock h run.1 s))
  finish_read-ReadOutcome size true bytes (complete all, t) ((front, p, q, r), o) =
      (q, rw (==_refl h) (r ∙ ap (λ l. l ++ pending t.inbound) (sym p)), keeps t o)
  finish_read-ReadOutcome size true bytes (timed_out [], t) ((p, q), o) = (refl, sym p, keeps t o)
  finish_read-ReadOutcome size true bytes (timed_out (b ∷ bs), t) ((p, q), o) =
      (shuts t, omega (arith, ap length p))
  finish_read-ReadOutcome size true bytes (ended, t) (e, o) = (shuts t, omega arith)
  finish_read-ReadOutcome size true bytes (failed, t) (e, o) = (keeps t o, omega arith)
  finish_read-ReadOutcome size true bytes (cut_off, t) (e, o) = absurd e
  finish_read-ReadOutcome size false bytes (complete all, t) ((front, p, q, r), o) =
      (q, rw (==_refl h) (r ∙ ap (λ l. l ++ pending t.inbound) (sym p)), keeps t o)
  finish_read-ReadOutcome size false bytes (timed_out all, t) ((p, q), o) =
      (shuts t, omega (arith, ap length p))
  finish_read-ReadOutcome size false bytes (ended, t) (e, o) = (shuts t, omega arith)
  finish_read-ReadOutcome size false bytes (failed, t) (e, o) = (keeps t o, omega arith)
  finish_read-ReadOutcome size false bytes (cut_off, t) (e, o) = absurd e

  pub read-ReadOutcome :
      (size : ℕ) (allow : Bool) (bytes : List ℕ)
      → HasStream h s bytes
      → ReadOutcome size allow h s bytes (read size allow s)
  unfolding read
  read-ReadOutcome size allow bytes st =
      let ends =
        read_loop-Ends (suc size) size [] (s.os h) st.is_open (omega arith) (omega arith) in
      subst (λ c. ReadOutcome size allow h s bytes (read_on c size allow s)) (sym conn)
        (finish_read-ReadOutcome size allow bytes (read_loop (suc size) size [] (s.os h))
          (rw st.stream at ends))
