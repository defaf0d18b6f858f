-- ===== src/JsonSocket/Read.antt =====
-- `_read`: exactly `size` bytes, or an exception.
pub mod Exact
pub mod Outcome
pub mod Loop
pub mod Half
pub mod Volume
pub mod Stalled
use python_json_socket.Prelude.{
  ℕ, zero, suc, ◌+◌, ◌-◌, Bool, true, List, [], ◌∷◌, ◌++◌, length, Option, none, some, ltb,
  if◌then◌else◌,
}
use python_json_socket.Os.{Sock, Received, got, timeout, os_error, recv}
use python_json_socket.JsonSocket.{
  State, M, Result, ok, raise, Exc, broken, socket_timeout, attribute_error, framing, read_timeout,
  no_fuel, put_sock,
}
use python_json_socket.JsonSocket.Close.{close_connection}

-- How the loop of `_read` ends; a timeout, with the bytes that were read before it.
pub data ReadExit : Type 0 where
  complete : List ℕ → ReadExit
  timed_out : List ℕ → ReadExit
  ended failed cut_off : ReadExit

-- What a call of `recv` leads to: an end, or the next round with more bytes.
abbrev pub read_step :
    (List ℕ → Sock → ReadExit × Sock) → List ℕ → Received × Sock → ReadExit × Sock
read_step next read (timeout, s) = (timed_out read, s)
read_step next read (os_error, s) = (failed, s)
read_step next read (got [], s) = (ended, s)
read_step next read (got (b ∷ bs), s) = next (read ++ b ∷ bs) s

-- `while len(data) < size`, on fuel.
unfoldable pub read_loop : ℕ → ℕ → List ℕ → Sock → ReadExit × Sock
read_loop zero size read s = (cut_off, s)
read_loop (suc fuel) size read s =
    if ltb (length read) size
    then read_step (read_loop fuel size) read (recv (size - length read) s)
    else (complete read, s)

-- A timeout before the first byte is raised as it is, if that is allowed; a later one closes.
-- An `OSError` of `recv` is not caught.
abbrev pub finish_read : Bool → ReadExit → State → Result (List ℕ) × State
finish_read allow (complete read) s = (ok read, s)
finish_read true (timed_out []) s = (raise socket_timeout, s)
finish_read allow (timed_out read) s = (raise (framing read_timeout), close_connection s)
finish_read allow ended s = (raise broken, close_connection s)
finish_read allow failed s = (raise Exc.os_error, s)
finish_read allow cut_off s = (raise no_fuel, s)

abbrev pub read_on : Option ℕ → ℕ → Bool → M (List ℕ)
read_on none size allow s = if ltb 0 size then (raise attribute_error, s) else (ok [], s)
read_on (some h) size allow s =
    let (exit, sock) = read_loop (suc size) size [] (s.os h) in
    finish_read allow exit (put_sock h sock s)

unfoldable pub read : ℕ → Bool → M (List ℕ)
read size allow s = read_on s.self.conn size allow s
