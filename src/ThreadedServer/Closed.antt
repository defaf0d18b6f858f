-- ===== src/ThreadedServer/Closed.antt =====
-- Which sockets a `ThreadedServer` has open when it has accepted, and when it has closed.
pub mod Run
use mathlib.Core.Path.{subst}
use python_json_socket.Prelude.{
  ℕ, ◌≡◌, ◌≢◌, refl, sym, ap, ◌∙◌, Bool, true, false, List, [], ◌∷◌, Option, none, some, Text, ◌&&◌,
  arith, ◌==◌, ==_iff, ==_refl, Bool-cases, inl, inr, same_ref,
}
use python_json_socket.Codec.{Codec, Value}
use python_json_socket.Os.{Sock}
use python_json_socket.JsonSocket.{State, Result, ok, raise}
use python_json_socket.JsonSocket.Close.{close, close_connection, close_socket}
use python_json_socket.JsonSocket.Close.Closed.{IsClosable, close_connection-closed}
use python_json_socket.JsonSocket.Local.{Local, close_connection-Local}
use python_json_socket.JsonServer.{Accept, accept_connection, accepted, timed_out, refused, listen}
use python_json_socket.JsonServer.Synced.{IsBound}
use python_json_socket.Stats.{Tracker}
use python_json_socket.Serving.{Server, Turn, serve_turn}
use python_json_socket.ThreadedServer.{
  Visit, Wait, readable, woken, no_wakeup, wait_for_accept, started, accept_waited, accept_client,
  message_loop, next_turn, handle_client_messages, serve_accepted, serve_visits, run,
}
use python_json_socket.ThreadedServer.Wakeup.{Wakeup, close_end, close_wakeup}
use python_json_socket.ThreadedServer.Listening.{
  HasConn, Accepting, accept_client-Accepting, serve_accepted-IsBound, serve_visits-IsBound,
  serve_turn-Local, message_loop-Local, wait_for_accept-IsBound,
}

-- Neither the main socket nor a wakeup socket.
abbrev pub Outside : ℕ → Option ℕ × Option ℕ → ℕ → Type 0
Outside k (reader, writer) i = (i ≢ k) × (reader ≢ some i) × (writer ≢ some i)

-- Only those may be open; only those and the connection.
abbrev pub IsClear : ℕ → Option ℕ × Option ℕ → State → Type 0
IsClear k ends s = (i : ℕ) → Outside k ends i → (s.os i).is_open ≡ false

abbrev pub HasOnlyConn : ℕ → Option ℕ × Option ℕ → State → Type 0
HasOnlyConn k ends s = (i : ℕ) → Outside k ends i → (s.os i).is_open ≡ true → s.self.conn ≡ some i

pub IsClear-HasOnlyConn :
    (k : ℕ) (ends : Option ℕ × Option ℕ) (s : State) → IsClear k ends s → HasOnlyConn k ends s
IsClear-HasOnlyConn k ends s clear i apart up = cc (clear i apart)

module _ (k : ℕ) (ends : Option ℕ × Option ℕ) where
  accept_connection_open :
      (event : Accept) (s : State) (i : ℕ)
      → IsBound k s
      → IsClear k ends s
      → Outside k ends i
      → ((accept_connection event s).1.os i).is_open ≡ true
      → ((accept_connection event s).0 ≡ ok tt) × ((accept_connection event s).1.self.conn ≡ some i)
  unfolding accept_connection
  accept_connection_open (accepted addr sock) s i b clear apart up =
      ground (arith, ==_refl s.next, ==_iff s.next i, ==_iff s.next k, clear i apart)
  accept_connection_open timed_out s i b clear apart up = ground (arith, clear i apart)
  accept_connection_open refused s i b clear apart up = ground (arith, clear i apart)

  abbrev Opens : Result (Unit {0}) × State → Type 0
  Opens (ok done, s) = HasOnlyConn k ends s
  Opens (raise e, s) = IsClear k ends s

  Opens-of :
      (r : Result (Unit {0}) × State)
      → ((i : ℕ)
          → Outside k ends i
          → (r.1.os i).is_open ≡ true
          → (r.0 ≡ ok tt) × (r.1.self.conn ≡ some i))
      → Opens r
  Opens-of (ok done, s) h = λ i apart up. (h i apart up).1
  Opens-of (raise e, s) h = λ i apart. elim (Bool-cases (s.os i).is_open) [
    | inl up ↦ cc (h i apart up).0
    | inr down ↦ down
  ]

  abbrev pub Ready : Bool × Server → Type 0
  Ready (true, sv) = HasOnlyConn k ends sv.sock
  Ready (false, sv) = IsClear k ends sv.sock

  started-Ready :
      (v : Visit) (r : Result (Unit {0}) × State) (t : Tracker) → Opens r → Ready (started v r t)
  started-Ready v (ok done, s) t o = o
  started-Ready v (raise e, s) t o = o

  wait_for_accept-IsClear :
      (wait : Wait) (s : State) → IsClear k ends s → IsClear k ends (wait_for_accept wait s).1
  unfolding wait_for_accept listen
  wait_for_accept-IsClear readable s clear = λ i apart. ground (arith, clear i apart)
  wait_for_accept-IsClear woken s clear = λ i apart. ground (arith, clear i apart)
  wait_for_accept-IsClear no_wakeup s clear = clear

  accept_waited-Ready :
      (v : Visit) (r : Bool × State) (t : Tracker)
      → IsBound k r.1
      → IsClear k ends r.1
      → Ready (accept_waited v r t)
  accept_waited-Ready v (true, s) t b clear =
      started-Ready v (accept_connection v.event s) t
        (Opens-of (accept_connection v.event s) (λ i. accept_connection_open v.event s i b clear))
  accept_waited-Ready v (false, s) t b clear = clear

  pub accept_client-Ready :
      (v : Visit) (sv : Server)
      → IsBound k sv.sock
      → IsClear k ends sv.sock
      → Ready (accept_client v sv)
  unfolding accept_client
  accept_client-Ready v sv b clear =
      accept_waited-Ready v (wait_for_accept v.wait sv.sock) sv.stats
        (wait_for_accept-IsBound k v.wait sv.sock b) (wait_for_accept-IsClear v.wait sv.sock clear)

  -- `close` at the end of `run`.
  pub close_rest :
      (s : State) (i : ℕ)
      → IsBound k s
      → HasOnlyConn k ends s
      → ends.0 ≢ some i
      → ends.1 ≢ some i
      → ((close s).os i).is_open ≡ false
  unfolding close close_connection close_socket
  close_rest s i b only r w =
      ground
        (arith, ==_iff k i, ==_refl k, (λ (apart : i ≢ k). only i (apart, r, w)), b.main, b.server)

unfoldable held : Option ℕ → ℕ
held none = 0
held (some h) = h

other_ref : (h i : ℕ) → h ≢ i → some h ≢ some i
unfolding held
other_ref h i apart e = apart (ap held e)

-- `_close_wakeup` behind it.
ends_closed :
    (reader writer : Option ℕ) (w : Wakeup) (i : ℕ)
    → (reader ≢ some i → writer ≢ some i → (w.os i).is_open ≡ false)
    → ((close_end writer (close_end reader w)).os i).is_open ≡ false
ends_closed none none w i rest = rest (λ e. cc e) (λ e. cc e)
ends_closed (some r) none w i rest =
    ground (arith, ==_iff r i, (λ (a : r ≢ i). rest (other_ref r i a) (λ e. cc e)))
ends_closed none (some s) w i rest =
    ground (arith, ==_iff s i, (λ (b : s ≢ i). rest (λ e. cc e) (other_ref s i b)))
ends_closed (some r) (some s) w i rest = ground (
  arith,
  ==_iff r i,
  ==_iff s i,
  (λ (a : r ≢ i) (b : s ≢ i). rest (other_ref r i a) (other_ref s i b)),
)

pub close_wakeup-closed :
    (w : Wakeup) (i : ℕ)
    → (w.reader ≢ some i → w.writer ≢ some i → (w.os i).is_open ≡ false)
    → ((close_wakeup w).os i).is_open ≡ false
unfolding close_wakeup
close_wakeup-closed w i rest = ends_closed w.reader w.writer w i rest
