-- ===== src/JsonSocket/Read/Exact.antt =====
-- `_read` of as many bytes as the stream begins with: it returns them, and leaves the rest of the
-- stream on an open connection.
use python_json_socket.Prelude.{
  ℕ, suc, ◌≡◌, refl, sym, ap, ◌∙◌, Bool, true, List, [], ◌++◌, some, length, length-append,
  append_inj, arith, ==_refl,
}
use python_json_socket.Os.{Recv, Sock}
use python_json_socket.Os.Stream.{pending}
use python_json_socket.Os.Halves.{Receives}
use python_json_socket.JsonSocket.Read.Half.{read_loop-Receives}
use python_json_socket.JsonSocket.{State, ok, put_sock}
use python_json_socket.JsonSocket.Read.{
  ReadExit, complete, timed_out, ended, failed, cut_off, read_loop, read, read_on, finish_read,
}
use python_json_socket.JsonSocket.Read.Loop.{Exits, Ends, read_loop-Ends}

-- The connection is socket `h`, open, with these bytes to receive.
pub record HasStream (h : ℕ) (s : State) (bytes : List ℕ) : Type 0 where
  pub is_conn : s.self.conn ≡ some h
  pub is_open : (s.os h).is_open ≡ true
  pub stream : pending (s.os h).inbound ≡ bytes

exact_exit :
    (size : ℕ) (front rest : List ℕ) (exit : ReadExit) (after : List Recv)
    → length front ≡ size
    → Exits size [] (front ++ rest) exit after
    → (exit ≡ complete front) × (pending after ≡ rest)
exact_exit size front rest (complete all) after hl (taken, p, q, r) =
    let (same, left) =
      append_inj taken front (pending after) rest (omega (arith, ap length p)) (sym r) in
    (ap complete (p ∙ same), left)
exact_exit size front rest (timed_out all) after hl (p, q) =
    absurd (omega (arith, ap length p, length-append front rest))
exact_exit size front rest ended after hl e = absurd (omega (arith, length-append front rest))
exact_exit size front rest failed after hl e = absurd (omega (arith, length-append front rest))
exact_exit size front rest cut_off after hl e = absurd e

-- What a read of `front` leads to.
pub record Returns (front rest : List ℕ) (h size : ℕ) (allow : Bool) (s : State) : Type 0 where
  pub after : State
  pub result : read size allow s ≡ (ok front, after)
  pub same_self : after.self ≡ s.self
  pub has_rest : HasStream h after rest
  pub receives : Receives (s.os h) (after.os h)

finish_exact :
    (size h : ℕ) (front rest : List ℕ) (allow : Bool) (s : State) (run : ReadExit × Sock)
    → s.self.conn ≡ some h
    → length front ≡ size
    → Ends size [] (front ++ rest) run
    → (finish_read allow run.0 (put_sock h run.1 s) ≡ (ok front, put_sock h run.1 s))
      × HasStream h (put_sock h run.1 s) rest
finish_exact size h front rest allow s (exit, sock) conn hl (exits, still) =
    let (done, left) = exact_exit size front rest exit sock.inbound hl exits in
    (
      rw done refl,
      record { is_conn = conn; is_open = rw (==_refl h) still; stream = rw (==_refl h) left },
    )

pub read-Returns :
    (front rest : List ℕ) (h size : ℕ) (allow : Bool) (s : State)
    → length front ≡ size
    → HasStream h s (front ++ rest)
    → Returns front rest h size allow s
unfolding read
read-Returns front rest h size allow s hl st =
    let ends = read_loop-Ends (suc size) size [] (s.os h) st.is_open (omega arith) (omega arith) in
    let (result, left) =
      finish_exact size h front rest allow s (read_loop (suc size) size [] (s.os h)) st.is_conn hl
        (rw st.stream at ends) in
    record {
      after = put_sock h (read_loop (suc size) size [] (s.os h)).1 s;
      result = ap (λ c. read_on c size allow s) st.is_conn ∙ result;
      same_self = refl;
      has_rest = left;
      receives = rw (==_refl h) (read_loop-Receives (suc size) size [] (s.os h));
    }
