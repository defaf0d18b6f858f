-- ===== src/ThreadedServer/Wakeup.antt =====
-- jsocket/tserver.py: the wakeup sockets of a `ThreadedServer`: `_init_wakeup`, `_signal_wakeup`,
-- `_drain_wakeup` and `_close_wakeup`.
pub mod Drained
pub mod Pair
pub mod Within
use python_json_socket.Prelude.{
  ℕ, zero, suc, ◌+◌, ◌≡◌, Bool, true, false, ◌&&◌, List, [], ◌∷◌, Option, none, some, ◌==◌,
  if◌then◌else◌,
}
use python_json_socket.Os.{
  Sock, fresh_sock, shut, Received, got, timeout, os_error, recv, Sent, send,
}

-- The sockets of the process, the next free reference, and `_wakeup_r` and `_wakeup_w`.
pub record Wakeup : Type 0 where
  pub os : ℕ → Sock
  pub next : ℕ
  pub reader : Option ℕ
  pub writer : Option ℕ

-- Which calls of `_init_wakeup` succeed.
pub record Calls : Type 0 where
  pub socketpair : Bool
  pub pair_reader : Bool
  pub pair_writer : Bool
  pub listener : Bool
  pub setsockopt : Bool
  pub bind : Bool
  pub listen : Bool
  pub writer : Bool
  pub connect : Bool
  pub accept : Bool
  pub reader_set : Bool
  pub writer_set : Bool

abbrev pub put : ℕ → Sock → Wakeup → Wakeup
put h sock s = record s { os = λ i. if h == i then sock else s.os i }

-- A new socket has the next reference.
abbrev pub create : Wakeup → Wakeup
create s = record (put s.next (fresh_sock [] []) s) { next = s.next + 1 }

-- `sock.setblocking(False)`, which is a timeout of zero.
abbrev pub set_nonblocking : ℕ → Wakeup → Wakeup
set_nonblocking h s = put h (record (s.os h) { timeout = some 0 }) s

abbrev pub close_one : ℕ → Wakeup → Wakeup
close_one h s = put h (shut (s.os h)) s

-- `self._wakeup_r, self._wakeup_w = ...`
abbrev pub set_ends : Option ℕ → Option ℕ → Wakeup → Wakeup
set_ends reader writer s = record s { reader = reader; writer = writer }

-- The `try` with `socket.socketpair`: whether it returns.
unfoldable pub try_pair : Calls → Wakeup → Bool × Wakeup
try_pair c s =
    if c.socketpair
    then (let r = s.next in
        let w = s.next + 1 in
        let made = set_ends (some r) (some w) (create (create s)) in
        let one = set_nonblocking r made in
        if c.pair_reader
        then (if c.pair_writer then (true, set_nonblocking w one) else (false, one))
        else (false, made))
    else (false, s)

abbrev no_ends : Wakeup → Wakeup
no_ends s = set_ends none none s

-- Behind the connection: the two ends are not to block.
abbrev set_both : Calls → ℕ → ℕ → Wakeup → Wakeup
set_both c reader writer s =
    let one = set_nonblocking reader s in
    let both = set_nonblocking writer one in
    let given_up : Wakeup → Wakeup = λ t. no_ends (close_one writer (close_one reader t)) in
    if c.reader_set
    then (if c.writer_set then set_ends (some reader) (some writer) both else given_up one)
    else given_up s

-- `writer` connects to the listener, which accepts.
abbrev connect_pair : Calls → ℕ → Wakeup → Wakeup
connect_pair c writer s =
    if c.connect
    then (if c.accept then set_both c s.next writer (create s) else no_ends (close_one writer s))
    else no_ends (close_one writer s)

-- Between the listener and its end: the calls that raise before there is a writer, or `writer`.
abbrev pub with_listener : Calls → Wakeup → Wakeup
with_listener c s =
    if c.setsockopt && c.bind && c.listen && c.writer
    then connect_pair c s.next (create s)
    else no_ends s

-- The loopback pair; the listener is closed whatever happens.
unfoldable pub fallback : Calls → Wakeup → Wakeup
fallback c s = if c.listener then close_one s.next (with_listener c (create s)) else no_ends s

abbrev pair_or : Calls → Bool × Wakeup → Wakeup
pair_or c (true, s) = s
pair_or c (false, s) = fallback c s

unfoldable pub init_wakeup : Calls → Wakeup → Wakeup
unfolding try_pair fallback
init_wakeup c s = pair_or c (try_pair c s)

-- `_signal_wakeup`; an `OSError` is passed over.
abbrev signal_on : Option ℕ → Wakeup → Wakeup
signal_on none s = s
signal_on (some h) s = put h (send (0 ∷ []) (s.os h)).1 s

unfoldable pub signal_wakeup : Wakeup → Wakeup
unfolding send
signal_wakeup s = signal_on s.writer s

abbrev pub drain_step : (Sock → Bool × Sock) → Received × Sock → Bool × Sock
drain_step next (got [], s) = (true, s)
drain_step next (got (b ∷ bs), s) = next s
drain_step next (timeout, s) = (true, s)
drain_step next (os_error, s) = (true, s)

-- `while True: if not sock.recv(1024): break`, on fuel: whether it ended. A `BlockingIOError` is the
-- timeout of a socket that does not block.
unfoldable pub drain_loop : ℕ → Sock → Bool × Sock
unfolding recv
drain_loop zero s = (false, s)
drain_loop (suc fuel) s = drain_step (drain_loop fuel) (recv 1024 s)

abbrev drain_on : Option ℕ → ℕ → Wakeup → Bool × Wakeup
drain_on none fuel s = (true, s)
drain_on (some h) fuel s = let (ended, sock) = drain_loop fuel (s.os h) in (ended, put h sock s)

unfoldable pub drain_wakeup : ℕ → Wakeup → Bool × Wakeup
unfolding drain_loop
drain_wakeup fuel s = drain_on s.reader fuel s

abbrev pub close_end : Option ℕ → Wakeup → Wakeup
close_end none s = s
close_end (some h) s = close_one h s

unfoldable pub close_wakeup : Wakeup → Wakeup
close_wakeup s = no_ends (close_end s.writer (close_end s.reader s))
