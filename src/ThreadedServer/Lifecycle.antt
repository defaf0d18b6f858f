-- ===== src/ThreadedServer/Lifecycle.antt =====
-- jsocket/tserver.py: `start`, `stop` and the loops of `ThreadedServer.run`, as the interleaved steps
-- of two threads: the caller's, which starts the server and stops it, and the server's own.
pub mod Stopped
pub mod Ends
use python_json_socket.Prelude.{
  ◌≡◌, ℕ, zero, suc, ◌+◌, ◌-◌, Bool, true, false, List, [], ◌∷◌, Option, none, some, ltb,
  if◌then◌else◌,
}

-- Where the caller stands: before `start`, between the flag and the thread, after `start`, between
-- the flag and the wakeup of `stop`, and after `stop`.
pub data Caller : Type 0 where
  fresh marked running cleared stopped : Caller

-- Where the server's thread stands.
pub data Pc : Type 0 where
  unborn : Pc
  testing setting : Pc  -- `if not self._is_alive` of `run`, and its body
  head : Pc  -- `while self._is_alive` of `run`
  listening : Pc  -- `_listen` in `_wait_for_accept`
  waiting selecting draining : Pc  -- its loop, `select.select`, and `_drain_wakeup`
  accepting : Pc  -- `accept_connection` in `_accept_client`
  serving reading : Pc  -- the loop of `_handle_client_messages`, and its body
  closing ended : Pc

pub record Life : Type 0 where
  pub is_alive : Bool
  pub wakeup : ℕ  -- bytes that `_wakeup_r` has to receive
  pub caller : Caller
  pub pc : Pc
  pub accept_timeout : Option ℕ
  pub recv_timeout : Option ℕ

-- What a call of the server's thread meets.
pub data Input : Type 0 where
  quiet : Input  -- nothing arrives
  arrives : Input  -- a connection, or a message that is handled
  fails : Input  -- an error that ends the loop that the call is in

-- `start` sets the flag and starts the thread; `stop` clears it and signals the wakeup. Where the
-- buffer is full `send` raises an `OSError`, and there is a byte already.
abbrev pub caller_at : Caller → Life → Option Life
caller_at fresh l = some (record l { is_alive = true; caller = marked })
caller_at marked l = some (record l { caller = running; pc = testing })
caller_at running l = some (record l { is_alive = false; caller = cleared })
caller_at cleared l = some (record l { wakeup = suc l.wakeup; caller = stopped })
caller_at stopped l = none

unfoldable pub caller_step : Life → Option Life
caller_step l = caller_at l.caller l

abbrev goto : Pc → Life → Option Life
goto pc l = some (record l { pc = pc })

-- A call that blocks goes on after its timeout, if it has one.
abbrev or_block : Option ℕ → Pc → Life → Option Life
or_block none pc l = none
or_block (some t) pc l = goto pc l

-- `select` on the listening socket alone; `none` while it blocks.
abbrev select_at : Input → Life → Option Life
select_at quiet l = none
select_at arrives l = goto accepting l
select_at fails l = goto head l

abbrev accept_at : Input → Life → Option Life
accept_at quiet l = or_block l.accept_timeout head l
accept_at arrives l = goto serving l
accept_at fails l = goto head l

abbrev read_at : Input → Life → Option Life
read_at quiet l = or_block l.recv_timeout serving l
read_at arrives l = goto serving l
read_at fails l = goto head l

abbrev listen_at : Input → Life → Option Life
listen_at fails l = goto head l
listen_at other l = goto waiting l

abbrev pub server_at : Pc → Input → Life → Option Life
server_at unborn i l = none
server_at testing i l = if l.is_alive then goto head l else goto setting l
server_at setting i l = some (record l { is_alive = true; pc = head })
server_at head i l = if l.is_alive then goto listening l else goto closing l
server_at listening i l = listen_at i l
server_at waiting i l = if l.is_alive then goto selecting l else goto head l
server_at selecting i l = if ltb 0 l.wakeup then goto draining l else select_at i l
server_at draining i l =
    if ltb 0 l.wakeup then some (record l { wakeup = l.wakeup - 1024 }) else goto head l
server_at accepting i l = accept_at i l
server_at serving i l = if l.is_alive then goto reading l else goto head l
server_at reading i l = read_at i l
server_at closing i l = goto ended l
server_at ended i l = none

-- A step of the server's thread; `none` where it is blocked or has ended.
unfoldable pub server_step : Input → Life → Option Life
server_step i l = server_at l.pc i l

abbrev pub or_stay : Life → Option Life → Life
or_stay l none = l
or_stay l (some m) = m

-- The server's thread on its own.
abbrev pub serve : List Input → Life → Life
serve [] l = l
serve (i ∷ is) l = serve is (or_stay l (server_step i l))

-- One step of either thread, and any number of them.
pub data Step (l m : Life) : Type 0 where
  call : caller_step l ≡ some m → Step l m
  work : (i : Input) → server_step i l ≡ some m → Step l m

pub data Reach (l : Life) : Life → Type 0 where
  here : Reach l l
  later : {m n : Life} → Reach l m → Step m n → Reach l n
