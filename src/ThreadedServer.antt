-- ===== src/ThreadedServer.antt =====
-- jsocket/tserver.py: `ThreadedServer`, which serves one client after another in its thread.
pub mod Balanced
pub mod Closed
pub mod Connected
pub mod Listening
pub mod Lifecycle
pub mod Replies
pub mod Wakeup
use python_json_socket.Prelude.{
  ℕ, Bool, true, false, List, [], ◌∷◌, ◌++◌, Option, none, some, Text, codes, contains,
  if◌then◌else◌,
}
use python_json_socket.Codec.{Codec, Value}
use python_json_socket.JsonSocket.{State, M, Result, ok, raise, Exc, pure}
use python_json_socket.JsonSocket.Close.{close, close_connection}
use python_json_socket.JsonServer.{Accept, listen, accept_connection}
use python_json_socket.Stats.{Tracker, Now, note_disconnect}
use python_json_socket.Stats.Identity.{decimal}
use python_json_socket.Stats.Session.{record_client_start, clear_client_stats}
use Wakeup.{close_wakeup}
use python_json_socket.Serving.{Server, Turn, serve_turn}

unfoldable pub format_client_id : Option (Text × ℕ) → Text
unfolding contains decimal
format_client_id none = codes "unknown"
format_client_id (some (host, port)) =
    if contains (codes ":") host
    then codes "[" ++ (host ++ (codes "]:" ++ decimal port))
    else host ++ (codes ":" ++ decimal port)

-- How `_wait_for_accept` ends: the listening socket is readable, a wakeup was signalled or `select`
-- failed, or there is no wakeup socket to wait on.
pub data Wait : Type 0 where
  readable woken no_wakeup : Wait

abbrev waited : Wait → Result (Unit {0}) × State → Bool × State
waited readable (ok done, s) = (true, s)
waited other (r, s) = (false, s)

abbrev wait_on : Wait → Option ℕ → State → Bool × State
wait_on no_wakeup main s = (true, s)
wait_on wait none s = (true, s)
wait_on wait (some h) s = waited wait (listen s)

unfoldable pub wait_for_accept : Wait → State → Bool × State
unfolding listen
wait_for_accept wait s = wait_on wait s.self.socket s

-- One connection: how the wait for it ends, what `accept` gives, the clock at its start, the passes
-- through the message loop before `stop` clears `_is_alive`, and the clock at its end.
pub record Visit : Type 0 where
  pub wait : Wait
  pub event : Accept
  pub peer : Option (Text × ℕ)
  pub start : Now
  pub turns : List Turn
  pub finish : Now

-- `_last_client_addr`, or else the answer of `getpeername`.
abbrev or_peer : Option (Text × ℕ) → Option (Text × ℕ) → Option (Text × ℕ)
or_peer none peer = peer
or_peer (some addr) peer = some addr

abbrev started : Visit → Result (Unit {0}) × State → Tracker → Bool × Server
started v (raise e, s) t = (false, record { sock = s; stats = t })
started v (ok done, s) t = (
  true,
  record {
    sock = s;
    stats =
        record_client_start (format_client_id (or_peer s.self.last_client_addr v.peer)) v.start t;
  },
)

abbrev accept_waited : Visit → Bool × State → Tracker → Bool × Server
accept_waited v (false, s) t = (false, record { sock = s; stats = t })
accept_waited v (true, s) t = started v (accept_connection v.event s) t

-- `_accept_client`
unfoldable pub accept_client : Visit → Server → Bool × Server
unfolding wait_for_accept accept_connection record_client_start format_client_id
accept_client v sv = accept_waited v (wait_for_accept v.wait sv.sock) sv.stats

-- The server and its wakeup sockets, `_wakeup_r` and `_wakeup_w`.
pub record Threaded : Type 0 where
  pub server : Server
  pub reader : Option ℕ
  pub writer : Option ℕ

-- `_close_wakeup` among all sockets of the process.
abbrev pub close_ends : Threaded → Threaded
close_ends t =
    let s = t.server.sock in
    let w =
      close_wakeup (record { os = s.os; next = s.next; reader = t.reader; writer = t.writer }) in
    record {
      server = record t.server { sock = record s { os = w.os; next = w.next } };
      reader = w.reader;
      writer = w.writer;
    }

module _ (repr : Value → Text) (c : Codec) where
  -- Every `break` of the loop is behind `self._close_connection()`.
  abbrev pub next_turn : (Server → Server) → Bool × Server → Server
  next_turn next (true, sv) = next sv
  next_turn next (false, sv) = record sv { sock = close_connection sv.sock }

  -- `while self._is_alive`: the list holds the passes that find it set.
  unfoldable pub message_loop : List Turn → Server → Server
  unfolding serve_turn
  message_loop [] sv = sv
  message_loop (turn ∷ turns) sv = next_turn (message_loop turns) (serve_turn repr c turn sv)

  unfoldable pub handle_client_messages : List Turn → Now → Server → Server
  unfolding message_loop note_disconnect clear_client_stats
  handle_client_messages turns finish sv =
      let left = message_loop turns sv in
      record left { stats = clear_client_stats (note_disconnect finish left.stats) }

  abbrev pub serve_accepted : Visit → Bool × Server → Server
  serve_accepted v (false, sv) = sv
  serve_accepted v (true, sv) = handle_client_messages v.turns v.finish sv

  -- The loop of `run`, over the connections that it tries to accept while `_is_alive` is set.
  unfoldable pub serve_visits : List Visit → Server → Server
  unfolding accept_client handle_client_messages
  serve_visits [] sv = sv
  serve_visits (v ∷ visits) sv = serve_visits visits (serve_accepted v (accept_client v sv))

  -- `self.close()`, whose `OSError` is passed over, is behind the loop, and then `_close_wakeup`.
  unfoldable pub run : List Visit → Threaded → Threaded
  unfolding serve_visits close close_wakeup
  run visits t =
      let left = serve_visits visits t.server in
      close_ends (record t { server = record left { sock = close left.sock } })
