-- ===== src/JsonSocket/Read/Stalled.antt =====
-- `_read` of more bytes than come before a timeout.
use mathlib.Core.Path.{subst}
use python_json_socket.Prelude.{
  ℕ, zero, suc, ◌-◌, ◌<◌, ◌≡◌, refl, sym, ap, ◌∙◌, Bool, true, false, List, [], ◌∷◌, ◌++◌, length,
  length-append, drop, arith, ltb, leb, Bool-cases, inl, inr, ==_refl, length-drop, leb_false→lt,
  ltb→lt,
}
use python_json_socket.Os.{
  Recv, segment, timed_out, failed, Sock, Received, got, timeout, os_error, recv_from, recv,
}
use python_json_socket.Os.Stream.{pending, recv-sock}
use python_json_socket.JsonSocket.{State, Result, ok, raise, framing, read_timeout, put_sock}
use python_json_socket.JsonSocket.Close.{close_connection}
use python_json_socket.JsonSocket.Read.{
  ReadExit, complete, ended, cut_off, read_step, read_loop, finish_read, read_on, read,
}
use python_json_socket.JsonSocket.Read.Exact.{HasStream, Returns}
use python_json_socket.JsonSocket.Read.Loop.{Ends, read_loop-Ends}

-- A timeout is what comes behind the bytes that are there.
abbrev pub Stalls : List Recv → Type 0
Stalls [] = ⊥
Stalls (segment [] ∷ rest) = ⊥
Stalls (segment (x ∷ b) ∷ rest) = Stalls rest
Stalls (timed_out ∷ rest) = Unit
Stalls (failed ∷ rest) = ⊥

-- After a `recv` of at least a byte.
abbrev StallsStill : Received × List Recv → Type 0
StallsStill (got [], rest) = ⊥
StallsStill (got (x ∷ b), rest) = Stalls rest
StallsStill (timeout, rest) = Unit
StallsStill (os_error, rest) = ⊥

cut_segment :
    (l : List ℕ) (rest : List Recv) → 0 < length l → Stalls rest → Stalls (segment l ∷ rest)
cut_segment [] rest some_left st = absurd (omega arith)
cut_segment (x ∷ l) rest some_left st = st

recv_from-Stalls :
    (m : ℕ) (script : List Recv) → Stalls script → StallsStill (recv_from (suc m) script)
unfolding recv_from
recv_from-Stalls m [] st = absurd st
recv_from-Stalls m (segment [] ∷ rest) st = absurd st
recv_from-Stalls m (segment (x ∷ b) ∷ rest) st = elim (Bool-cases (leb (length (x ∷ b)) (suc m))) [
  | inl all ↦ rw all st
  | inr part ↦
      rw part
        (cut_segment (drop m b) rest (omega (arith, length-drop m b, leb_false→lt _ _ part)) st)
]
recv_from-Stalls m (timed_out ∷ rest) st = tt
recv_from-Stalls m (failed ∷ rest) st = absurd st

recv-Stalls :
    (n : ℕ) (s : Sock)
    → 0 < n
    → s.is_open ≡ true
    → Stalls s.inbound
    → StallsStill ((recv n s).0, (recv n s).1.inbound)
unfolding recv
recv-Stalls zero s hn o st = absurd (omega arith)
recv-Stalls (suc m) s hn o st = rw o (recv_from-Stalls m s.inbound st)

-- The loop has all bytes, or a timeout ended it.
abbrev pub Stalled : ReadExit × Sock → Type 0
Stalled (complete all, s) = Stalls s.inbound
Stalled (ReadExit.timed_out all, s) = Unit
Stalled (ended, s) = ⊥
Stalled (ReadExit.failed, s) = ⊥
Stalled (cut_off, s) = ⊥

read_step-Stalled :
    (size : ℕ) (read : List ℕ) (next : List ℕ → Sock → ReadExit × Sock) (r : Received × Sock)
    → ((more : List ℕ) (s : Sock)
        → length read < length more
        → s.is_open ≡ true
        → Stalls s.inbound
        → Stalled (next more s))
    → r.1.is_open ≡ true
    → StallsStill (r.0, r.1.inbound)
    → Stalled (read_step next read r)
read_step-Stalled size read next (timeout, s) ih o st = tt
read_step-Stalled size read next (os_error, s) ih o st = st
read_step-Stalled size read next (got [], s) ih o st = st
read_step-Stalled size read next (got (b ∷ bs), s) ih o st =
    ih (read ++ b ∷ bs) s (omega (arith, length-append read (b ∷ bs))) o st

read_loop-Stalled :
    (fuel size : ℕ) (read : List ℕ) (s : Sock)
    → size - length read < fuel
    → s.is_open ≡ true
    → Stalls s.inbound
    → Stalled (read_loop fuel size read s)
unfolding read_loop
read_loop-Stalled zero size read s hf o st = absurd (omega arith)
read_loop-Stalled (suc fuel) size read s hf o st = elim (Bool-cases (ltb (length read) size)) [
  | inl more ↦
      let lacks = ltb→lt (length read) size more in
      rw more (
        read_step-Stalled size read (read_loop fuel size) (recv (size - length read) s)
          (λ r t longer ot stt. read_loop-Stalled fuel size r t (omega arith) ot stt)
          (ap (λ (t : Sock). t.is_open) (recv-sock (size - length read) s) ∙ o)
          (recv-Stalls (size - length read) s (omega arith) o st))
  | inr done ↦ rw done st
]

-- What `_read` returned came before the timeout.
abbrev StallsBehind : ℕ → Result (List ℕ) × State → Type 0
StallsBehind h (ok all, t) = Stalls (t.os h).inbound
StallsBehind h (raise e, t) = Unit

finish_read-Stalls :
    (h : ℕ) (allow : Bool) (run : ReadExit × Sock) (s : State)
    → Stalled run
    → StallsBehind h (finish_read allow run.0 (put_sock h run.1 s))
finish_read-Stalls h allow (complete all, sock) s st = rw (==_refl h) st
finish_read-Stalls h true (ReadExit.timed_out [], sock) s st = tt
finish_read-Stalls h false (ReadExit.timed_out all, sock) s st = tt
finish_read-Stalls h true (ReadExit.timed_out (b ∷ all), sock) s st = tt
finish_read-Stalls h allow (ended, sock) s st = absurd st
finish_read-Stalls h allow (ReadExit.failed, sock) s st = absurd st
finish_read-Stalls h allow (cut_off, sock) s st = absurd st

pub read-Stalls :
    (front rest : List ℕ) (h size : ℕ) (allow : Bool) (s : State)
    → HasStream h s (front ++ rest)
    → (r : Returns front rest h size allow s) → Stalls (s.os h).inbound
    → Stalls (r.after.os h).inbound
unfolding read
read-Stalls front rest h size allow s stream r st =
    let run = read_loop (suc size) size [] (s.os h) in
    let behind =
      finish_read-Stalls h allow run s
        (read_loop-Stalled (suc size) size [] (s.os h) (omega arith) stream.is_open st) in
    subst (StallsBehind h) (sym (ap (λ c. read_on c size allow s) stream.is_conn) ∙ r.result) behind

-- A read of more than what comes before the timeout, with some of it or without.
timed_out_exit :
    (size : ℕ) (bytes : List ℕ) (run : ReadExit × Sock) (h : ℕ) (s : State)
    → length bytes < size
    → Ends size [] bytes run
    → Stalled run
    → finish_read false run.0 (put_sock h run.1 s)
      ≡ (raise (framing read_timeout), close_connection (put_sock h run.1 s))
timed_out_exit size bytes (complete all, sock) h s few ((front, p, q, r), o) st =
    absurd (omega (arith, ap length p, ap length r, length-append front (pending sock.inbound)))
timed_out_exit size bytes (ReadExit.timed_out all, sock) h s few e st = refl
timed_out_exit size bytes (ended, sock) h s few e st = absurd st
timed_out_exit size bytes (ReadExit.failed, sock) h s few e st = absurd st
timed_out_exit size bytes (cut_off, sock) h s few e st = absurd st

-- The read raises a timeout and closes the connection; before that, nothing changes but the socket.
pub read_stalled :
    (bytes : List ℕ) (h size : ℕ) (s : State)
    → length bytes < size
    → HasStream h s bytes
    → Stalls (s.os h).inbound
    → (before : State) × (read size false s
        ≡ (raise (framing read_timeout), close_connection before))
      × (before.self ≡ s.self)
unfolding read
read_stalled bytes h size s few stream st =
    let run = read_loop (suc size) size [] (s.os h) in
    let ends =
      read_loop-Ends (suc size) size [] (s.os h) stream.is_open (omega arith) (omega arith) in
    (
      put_sock h run.1 s,
      ap (λ c. read_on c size false s) stream.is_conn
          ∙ timed_out_exit size bytes run h s few (rw stream.stream at ends)
              (read_loop-Stalled (suc size) size [] (s.os h) (omega arith) stream.is_open st),
      refl,
    )
