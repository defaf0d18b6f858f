-- ===== src/JsonSocket/Read/Half.antt =====
-- The loop of `_read` leaves the sending half of the connection alone.
use python_json_socket.Prelude.{
  ℕ, zero, suc, ◌-◌, ◌++◌, refl, List, [], ◌∷◌, length, ltb, Bool-cases, inl, inr,
}
use python_json_socket.Os.{Sock, Received, got, timeout, os_error, recv}
use python_json_socket.Os.Halves.{Receives, Receives-trans, recv-Receives}
use python_json_socket.JsonSocket.Read.{ReadExit, read_step, read_loop}

Receives-refl : (s : Sock) → Receives s s
Receives-refl s = record { same_outbound = refl; same_delivered = refl }

read_step-Receives :
    (next : List ℕ → Sock → ReadExit × Sock) (read : List ℕ) (s : Sock) (r : Received × Sock)
    → ((all : List ℕ) (t : Sock) → Receives t (next all t).1)
    → Receives s r.1
    → Receives s (read_step next read r).1
read_step-Receives next read s (timeout, t) h p = p
read_step-Receives next read s (os_error, t) h p = p
read_step-Receives next read s (got [], t) h p = p
read_step-Receives next read s (got (b ∷ bs), t) h p = Receives-trans s t _ p (h (read ++ b ∷ bs) t)

pub read_loop-Receives :
    (fuel size : ℕ) (read : List ℕ) (s : Sock) → Receives s (read_loop fuel size read s).1
unfolding read_loop
read_loop-Receives zero size read s = Receives-refl s
read_loop-Receives (suc fuel) size read s = elim (Bool-cases (ltb (length read) size)) [
  | inl short ↦ rw short (
      read_step-Receives (read_loop fuel size) read s (recv (size - length read) s)
        (read_loop-Receives fuel size) (recv-Receives (size - length read) s))
  | inr done ↦ rw done (Receives-refl s)
]
