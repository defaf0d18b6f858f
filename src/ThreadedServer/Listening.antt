-- ===== src/ThreadedServer/Listening.antt =====
-- A `ThreadedServer` goes on listening, whatever its clients do.
use python_json_socket.Prelude.{
  ℕ, ◌≡◌, ◌≢◌, refl, sym, ap, ◌∙◌, Bool, true, false, List, [], ◌∷◌, Option, none, some, Text,
  arith, ==_iff, ==_refl,
}
use python_json_socket.Codec.{Codec, Value}
use python_json_socket.Os.{Sock}
use python_json_socket.JsonSocket.{State, Result, ok, raise}
use python_json_socket.JsonSocket.Write.{send_obj}
use python_json_socket.JsonSocket.Message.{read_obj}
use python_json_socket.JsonSocket.Local.{Local, Local-refl, Local-trans, close_connection-Local}
use python_json_socket.JsonSocket.Local.Reading.{read_obj-IsLocal}
use python_json_socket.JsonSocket.Local.Sending.{send_obj-IsLocal}
use python_json_socket.JsonServer.{Accept, accept_connection, accepted, timed_out, refused, listen}
use python_json_socket.JsonServer.Synced.{IsBound}
use python_json_socket.Stats.{Tracker, Now}
use python_json_socket.Serving.{Server, Turn, note_reply, reply, after_read, serve_turn}
use python_json_socket.ThreadedServer.{
  Visit, Wait, readable, woken, no_wakeup, wait_for_accept, started, accept_waited, accept_client,
  message_loop, next_turn, handle_client_messages, serve_accepted, serve_visits,
}

IsBound-Local :
    (k h : ℕ) (s after : State) → h ≢ k → Local h s after → IsBound k s → IsBound k after
IsBound-Local k h s after apart l b =
    let same : after.os k ≡ s.os k = l.others k (λ e. apart (sym e)) in
    record {
      server = l.same_server ∙ b.server;
      main = l.same_socket ∙ b.main;
      open_main = ap (λ (x : Sock). x.is_open) same ∙ b.open_main;
      accept = ap (λ (x : Sock). x.timeout) same ∙ b.accept ∙ sym l.same_accept;
      free = omega (arith, l.same_next, b.free);
    }

note_reply-Local :
    (h : ℕ) (s : State) (now : Now) (r : Result (Unit {0}) × State) (t : Tracker)
    → Local h s r.1
    → Local h s (note_reply now r t).1.sock
note_reply-Local h s now (ok done, u) t l = l
note_reply-Local h s now (raise e, u) t l = l

reply-Local :
    (c : Codec) (h : ℕ) (now : Now) (r : Result (Option Value)) (s : State) (t : Tracker)
    → s.self.conn ≡ some h
    → Local h s (reply c now r s t).1.sock
reply-Local c h now (raise e) s t conn = Local-refl h s
reply-Local c h now (ok none) s t conn = Local-refl h s
reply-Local c h now (ok (some response)) s t conn =
    note_reply-Local h s now (send_obj c response s) t (send_obj-IsLocal h c response s conn)

module _ (repr : Value → Text) (c : Codec) where
  after_read-Local :
      (h : ℕ) (s : State) (turn : Turn) (r : Result Value × State) (t : Tracker)
      → s.self.conn ≡ some h
      → Local h s r.1
      → Local h s (after_read repr c turn r t).1.sock
  after_read-Local h s turn (raise e, u) t conn l = l
  after_read-Local h s turn (ok obj, u) t conn l =
      Local-trans h s u _ l
        (reply-Local c h turn.at_reply (turn.process obj) u _ (l.same_conn ∙ conn))

  pub serve_turn-Local :
      (h : ℕ) (turn : Turn) (sv : Server)
      → sv.sock.self.conn ≡ some h
      → Local h sv.sock (serve_turn repr c turn sv).1.sock
  unfolding serve_turn
  serve_turn-Local h turn sv conn =
      after_read-Local h sv.sock turn (read_obj c sv.sock) sv.stats conn
        (read_obj-IsLocal c h sv.sock conn)

  next_turn-Local :
      (h : ℕ) (s : State) (next : Server → Server) (r : Bool × Server)
      → s.self.conn ≡ some h
      → Local h s r.1.sock
      → ((sv : Server) → sv.sock.self.conn ≡ some h → Local h sv.sock (next sv).sock)
      → Local h s (next_turn repr c next r).sock
  next_turn-Local h s next (true, sv) conn l go =
      Local-trans h s sv.sock _ l (go sv (l.same_conn ∙ conn))
  next_turn-Local h s next (false, sv) conn l go =
      Local-trans h s sv.sock _ l (close_connection-Local h sv.sock (l.same_conn ∙ conn))

  pub message_loop-Local :
      (h : ℕ) (turns : List Turn) (sv : Server)
      → sv.sock.self.conn ≡ some h
      → Local h sv.sock (message_loop repr c turns sv).sock
  unfolding message_loop
  message_loop-Local h [] sv conn = Local-refl h sv.sock
  message_loop-Local h (turn ∷ turns) sv conn =
      next_turn-Local h sv.sock (message_loop repr c turns) (serve_turn repr c turn sv) conn
        (serve_turn-Local h turn sv conn) (message_loop-Local h turns)

module _ (k : ℕ) where
  -- The server listens on `k`, and has another connection where one was accepted.
  unfoldable pub HasConn : State → Type 0
  HasConn s = (h : ℕ) × (s.self.conn ≡ some h) × (h ≢ k)

  abbrev Arrived : Result (Unit {0}) × State → Type 0
  Arrived (ok done, s) = IsBound k s × HasConn s
  Arrived (raise e, s) = IsBound k s

  pub wait_for_accept-IsBound :
      (wait : Wait) (s : State) → IsBound k s → IsBound k (wait_for_accept wait s).1
  unfolding wait_for_accept listen
  wait_for_accept-IsBound readable s b = ground arith
  wait_for_accept-IsBound woken s b = ground arith
  wait_for_accept-IsBound no_wakeup s b = b

  accept_connection-IsBound :
      (event : Accept) (s : State) → IsBound k s → IsBound k (accept_connection event s).1
  unfolding accept_connection
  accept_connection-IsBound (accepted addr sock) s b =
      ground (arith, ==_refl k, ==_refl s.next, ==_iff k s.next, ==_iff s.next k)
  accept_connection-IsBound timed_out s b = ground arith
  accept_connection-IsBound refused s b = ground arith

  accept_connection-conn :
      (event : Accept) (s : State)
      → IsBound k s
      → (accept_connection event s).0 ≡ ok tt
      → (accept_connection event s).1.self.conn ≡ some s.next
  unfolding accept_connection
  accept_connection-conn (accepted addr sock) s b returned =
      ground (arith, ==_refl k, ==_refl s.next, ==_iff k s.next, ==_iff s.next k)
  accept_connection-conn timed_out s b returned = ground arith
  accept_connection-conn refused s b returned = ground arith

  Arrived-conn :
      (h : ℕ) (r : Result (Unit {0}) × State)
      → h ≢ k
      → IsBound k r.1
      → (r.0 ≡ ok tt → r.1.self.conn ≡ some h)
      → Arrived r
  unfolding HasConn
  Arrived-conn h (ok done, s) apart b conn = (b, (h, conn refl, apart))
  Arrived-conn h (raise e, s) apart b conn = b

  accept_connection-Arrived :
      (event : Accept) (s : State) → IsBound k s → Arrived (accept_connection event s)
  accept_connection-Arrived event s b =
      Arrived-conn s.next (accept_connection event s) (omega (arith, b.free))
        (accept_connection-IsBound event s b) (accept_connection-conn event s b)

  abbrev pub Accepting : Bool × Server → Type 0
  Accepting (true, sv) = IsBound k sv.sock × HasConn sv.sock
  Accepting (false, sv) = IsBound k sv.sock

  started-Accepting :
      (v : Visit) (r : Result (Unit {0}) × State) (t : Tracker)
      → Arrived r
      → Accepting (started v r t)
  started-Accepting v (ok done, s) t a = a
  started-Accepting v (raise e, s) t a = a

  accept_waited-Accepting :
      (v : Visit) (r : Bool × State) (t : Tracker) → IsBound k r.1 → Accepting (accept_waited v r t)
  accept_waited-Accepting v (true, s) t b =
      started-Accepting v (accept_connection v.event s) t (accept_connection-Arrived v.event s b)
  accept_waited-Accepting v (false, s) t b = b

  pub accept_client-Accepting :
      (v : Visit) (sv : Server) → IsBound k sv.sock → Accepting (accept_client v sv)
  unfolding accept_client
  accept_client-Accepting v sv b =
      accept_waited-Accepting v (wait_for_accept v.wait sv.sock) sv.stats
        (wait_for_accept-IsBound v.wait sv.sock b)

module _ (repr : Value → Text) (c : Codec) (k : ℕ) where
  pub serve_accepted-IsBound :
      (v : Visit) (r : Bool × Server) → Accepting k r → IsBound k (serve_accepted repr c v r).sock
  unfolding handle_client_messages HasConn
  serve_accepted-IsBound v (false, sv) b = b
  serve_accepted-IsBound v (true, sv) (b, (h, conn, apart)) =
      IsBound-Local k h sv.sock _ apart (message_loop-Local repr c h v.turns sv conn) b

  -- A server that listens on socket `k`, which is open and has the accept timeout of the object,
  -- still does after any connections: whatever arrives on them, however accepting, reading, handling
  -- and replying fail.
  pub serve_visits-IsBound :
      (visits : List Visit) (sv : Server)
      → IsBound k sv.sock
      → IsBound k (serve_visits repr c visits sv).sock
  unfolding serve_visits
  serve_visits-IsBound [] sv b = b
  serve_visits-IsBound (v ∷ visits) sv b =
      serve_visits-IsBound visits (serve_accepted repr c v (accept_client v sv))
        (serve_accepted-IsBound v (accept_client v sv) (accept_client-Accepting k v sv b))
