-- ===== src/JsonSocket/Read/Volume.antt =====
-- How much `_read` takes off the connection.
use mathlib.Core.Path.{subst}
use python_json_socket.Prelude.{
  ℕ, zero, suc, ◌+◌, ◌-◌, ◌≤◌, ◌≡◌, refl, sym, ap, ◌∙◌, Bool, true, false, List, [], ◌∷◌, ◌++◌,
  some, length, length-append, length-take, length-drop, arith, ltb, leb, Bool-cases, inl, inr,
  ==_refl,
}
use python_json_socket.Os.{
  Recv, segment, timed_out, failed, Sock, Received, got, timeout, os_error, recv_from, recv,
}
use python_json_socket.JsonSocket.{State, put_sock}
use python_json_socket.JsonSocket.Close.{close_connection}
use python_json_socket.JsonSocket.Read.{
  ReadExit, complete, ended, cut_off, read_step, read_loop, finish_read, read_on, read,
}

-- All bytes that a connection still has to receive, behind timeouts and errors too.
abbrev pub volume : List Recv → ℕ
volume [] = 0
volume (segment b ∷ rest) = length b + volume rest
volume (timed_out ∷ rest) = volume rest
volume (failed ∷ rest) = volume rest

abbrev received : Received → ℕ
received (got b) = length b
received timeout = 0
received os_error = 0

recv_from-volume :
    (n : ℕ) (script : List Recv)
    → (volume script ≤ volume (recv_from n script).1 + received (recv_from n script).0)
      × (received (recv_from n script).0 ≤ n)
unfolding recv_from
recv_from-volume n [] = (omega arith, omega arith)
recv_from-volume n (segment b ∷ rest) = elim (Bool-cases (leb (length b) n)) [
  | inl all ↦ rw all (ground arith)
  | inr part ↦
      rw part (omega (arith, length-take n b, length-drop n b), omega (arith, length-take n b))
]
recv_from-volume n (timed_out ∷ rest) = (omega arith, omega arith)
recv_from-volume n (failed ∷ rest) = (omega arith, omega arith)

recv-volume :
    (n : ℕ) (s : Sock)
    → (volume s.inbound ≤ volume (recv n s).1.inbound + received (recv n s).0)
      × (received (recv n s).0 ≤ n)
unfolding recv
recv-volume n s = elim (Bool-cases s.is_open) [
  | inl up ↦ rw up (recv_from-volume n s.inbound)
  | inr down ↦ rw down (omega arith, omega arith)
]

read_step-volume :
    (size : ℕ) (next : List ℕ → Sock → ReadExit × Sock) (read : List ℕ) (before : ℕ)
    (r : Received × Sock)
    → ((more : List ℕ) (s : Sock)
        → length more ≤ size
        → volume s.inbound + length more ≤ volume (next more s).1.inbound + size)
    → length read ≤ size
    → before ≤ volume r.1.inbound + received r.0
    → received r.0 ≤ size - length read
    → before + length read ≤ volume (read_step next read r).1.inbound + size
read_step-volume size next read before (timeout, s) ih le b few = omega arith
read_step-volume size next read before (os_error, s) ih le b few = omega arith
read_step-volume size next read before (got [], s) ih le b few = omega arith
read_step-volume size next read before (got (x ∷ xs), s) ih le b few =
    let longer = length-append read (x ∷ xs) in
    omega (arith, ih (read ++ x ∷ xs) s (omega (arith, longer)), longer)

read_loop-volume :
    (fuel size : ℕ) (read : List ℕ) (s : Sock)
    → length read ≤ size
    → volume s.inbound + length read ≤ volume (read_loop fuel size read s).1.inbound + size
unfolding read_loop
read_loop-volume zero size read s le = omega arith
read_loop-volume (suc fuel) size read s le = elim (Bool-cases (ltb (length read) size)) [
  | inl more ↦
      let (b, few) = recv-volume (size - length read) s in
      rw more (
        read_step-volume size (read_loop fuel size) read (volume s.inbound)
          (recv (size - length read) s) (read_loop-volume fuel size) le b few)
  | inr done ↦ rw done (omega arith)
]

-- At most `n` bytes of the connection `h` are gone.
abbrev pub Takes : ℕ → ℕ → State → State → Type 0
Takes h n s t = volume (s.os h).inbound ≤ volume (t.os h).inbound + n

pub close_connection-inbound :
    (h : ℕ) (s : State) → ((close_connection s).os h).inbound ≡ (s.os h).inbound
unfolding close_connection
close_connection-inbound h s = ground arith

finish_read-inbound :
    (h : ℕ) (allow : Bool) (exit : ReadExit) (s : State)
    → ((finish_read allow exit s).1.os h).inbound ≡ (s.os h).inbound
finish_read-inbound h allow (complete read) s = refl
finish_read-inbound h true (ReadExit.timed_out []) s = refl
finish_read-inbound h false (ReadExit.timed_out read) s = close_connection-inbound h s
finish_read-inbound h true (ReadExit.timed_out (b ∷ read)) s = close_connection-inbound h s
finish_read-inbound h allow ended s = close_connection-inbound h s
finish_read-inbound h allow ReadExit.failed s = refl
finish_read-inbound h allow cut_off s = refl

read_on-Takes :
    (h size : ℕ) (allow : Bool) (s : State) → Takes h size s (read_on (some h) size allow s).1
read_on-Takes h size allow s =
    let run = read_loop (suc size) size [] (s.os h) in
    let written : ((put_sock h run.1 s).os h).inbound ≡ run.1.inbound = rw (==_refl h) refl in
    omega (
      arith,
      ap volume (finish_read-inbound h allow run.0 (put_sock h run.1 s) ∙ written),
      read_loop-volume (suc size) size [] (s.os h) (omega arith),
    )

pub read-Takes :
    (h size : ℕ) (allow : Bool) (s : State)
    → s.self.conn ≡ some h
    → Takes h size s (read size allow s).1
unfolding read
read-Takes h size allow s conn =
    subst (λ o. Takes h size s (read_on o size allow s).1) (sym conn) (read_on-Takes h size allow s)
