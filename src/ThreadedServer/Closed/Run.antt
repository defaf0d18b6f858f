-- ===== src/ThreadedServer/Closed/Run.antt =====
-- `ThreadedServer.run`: when it has run, no socket is open.
use python_json_socket.Prelude.{
  ℕ, ◌≡◌, sym, ap, ◌∙◌, Bool, true, false, List, [], ◌∷◌, Option, some, Text, arith, ◌==◌, ==_iff,
  Bool-cases, inl, inr,
}
use python_json_socket.Codec.{Codec, Value}
use python_json_socket.Os.{Sock}
use python_json_socket.JsonSocket.{State}
use python_json_socket.JsonSocket.Close.Closed.{IsClosable, close_connection-closed}
use python_json_socket.JsonSocket.Local.{Local}
use python_json_socket.JsonServer.Synced.{IsBound}
use python_json_socket.Serving.{Server, Turn, serve_turn}
use python_json_socket.ThreadedServer.{
  Visit, Threaded, accept_client, message_loop, next_turn, handle_client_messages, serve_accepted,
  serve_visits, run,
}
use python_json_socket.ThreadedServer.Closed.{
  IsClear, HasOnlyConn, Ready, IsClear-HasOnlyConn, accept_client-Ready, close_rest,
  close_wakeup-closed,
}
use python_json_socket.ThreadedServer.Listening.{
  HasConn, Accepting, accept_client-Accepting, serve_accepted-IsBound, serve_visits-IsBound,
  serve_turn-Local, message_loop-Local,
}

module _ (repr : Value → Text) (c : Codec) where
  abbrev next_breaks : (Server → Bool) → Bool × Server → Bool
  next_breaks go (true, sv) = go sv
  next_breaks go (false, sv) = true

  -- One of these passes leaves the loop by a `break`.
  unfoldable pub breaks : List Turn → Server → Bool
  breaks [] sv = false
  breaks (turn ∷ turns) sv = next_breaks (breaks turns) (serve_turn repr c turn sv)

  abbrev Breaks : Visit → Bool × Server → Type 0
  Breaks v (true, sv) = breaks v.turns sv ≡ true
  Breaks v (false, sv) = Unit

  -- Where `stop` ends a loop, the connection is the last: the loops before it are left by a `break`.
  abbrev pub BreaksBefore : List Visit → Server → Type 0
  BreaksBefore [] sv = Unit
  BreaksBefore (v ∷ []) sv = Unit
  BreaksBefore (v ∷ w ∷ visits) sv =
      Breaks v (accept_client v sv)
      × BreaksBefore (w ∷ visits) (serve_accepted repr c v (accept_client v sv))

  IsClosable-Local : (h : ℕ) (s after : State) → Local h s after → IsClosable s → IsClosable after
  IsClosable-Local h s after l closable = rw (l.same_server, l.same_conn, l.same_socket) closable

  next_turn-closed :
      (h : ℕ) (s : State) (next : Server → Server) (go : Server → Bool) (r : Bool × Server)
      → s.self.conn ≡ some h
      → IsClosable s
      → Local h s r.1.sock
      → ((sv : Server)
          → sv.sock.self.conn ≡ some h
          → IsClosable sv.sock
          → go sv ≡ true
          → ((next sv).sock.os h).is_open ≡ false)
      → next_breaks go r ≡ true
      → ((next_turn repr c next r).sock.os h).is_open ≡ false
  next_turn-closed h s next go (true, sv) conn closable l ih broke =
      ih sv (l.same_conn ∙ conn) (IsClosable-Local h s sv.sock l closable) broke
  next_turn-closed h s next go (false, sv) conn closable l ih broke =
      close_connection-closed h sv.sock (l.same_conn ∙ conn)
        (IsClosable-Local h s sv.sock l closable)

  message_loop-closed :
      (h : ℕ) (turns : List Turn) (sv : Server)
      → sv.sock.self.conn ≡ some h
      → IsClosable sv.sock
      → breaks turns sv ≡ true
      → ((message_loop repr c turns sv).sock.os h).is_open ≡ false
  unfolding message_loop breaks
  message_loop-closed h [] sv conn closable broke = cc broke
  message_loop-closed h (turn ∷ turns) sv conn closable broke =
      next_turn-closed h sv.sock (message_loop repr c turns) (breaks turns)
        (serve_turn repr c turn sv) conn closable (serve_turn-Local repr c h turn sv conn)
        (message_loop-closed h turns) broke

  module _ (k : ℕ) (ends : Option ℕ × Option ℕ) where
    only_conn-Local :
        (h : ℕ) (s after : State)
        → s.self.conn ≡ some h
        → Local h s after
        → HasOnlyConn k ends s
        → HasOnlyConn k ends after
    only_conn-Local h s after conn l only i apart up = elim (Bool-cases (h == i)) [
      | inl same ↦ l.same_conn ∙ conn ∙ ap some ((==_iff h i).0 same)
      | inr other ↦
          l.same_conn
          ∙ only i apart
              (sym (ap (λ (x : Sock). x.is_open) (l.others i (ground (arith, ==_iff h i)))) ∙ up)
    ]

    closed_conn-IsClear :
        (h : ℕ) (s : State)
        → s.self.conn ≡ some h
        → HasOnlyConn k ends s
        → (s.os h).is_open ≡ false
        → IsClear k ends s
    closed_conn-IsClear h s conn only shut i apart = elim (Bool-cases (s.os i).is_open) [
      | inl up ↦ ground (arith, only i apart up, conn, shut)
      | inr down ↦ down
    ]

    serve_accepted-HasOnlyConn :
        (v : Visit) (r : Bool × Server)
        → Accepting k r
        → Ready k ends r
        → HasOnlyConn k ends (serve_accepted repr c v r).sock
    unfolding handle_client_messages HasConn
    serve_accepted-HasOnlyConn v (false, sv) a ready = IsClear-HasOnlyConn k ends sv.sock ready
    serve_accepted-HasOnlyConn v (true, sv) (b, (h, conn, apart)) ready =
        only_conn-Local h sv.sock _ conn (message_loop-Local repr c h v.turns sv conn) ready

    serve_accepted-IsClear :
        (v : Visit) (r : Bool × Server)
        → Accepting k r
        → Ready k ends r
        → Breaks v r
        → IsClear k ends (serve_accepted repr c v r).sock
    unfolding handle_client_messages HasConn
    serve_accepted-IsClear v (false, sv) a ready broke = ready
    serve_accepted-IsClear v (true, sv) (b, (h, conn, apart)) ready broke =
        let l = message_loop-Local repr c h v.turns sv conn in
        let closable : IsClosable sv.sock =
          rw (b.server, b.main, conn) (ground (arith, ==_iff h k)) in
        let left = (message_loop repr c v.turns sv).sock in
        closed_conn-IsClear h left (l.same_conn ∙ conn)
          (only_conn-Local h sv.sock left conn l ready)
          (message_loop-closed h v.turns sv conn closable broke)

    serve_visits-HasOnlyConn :
        (visits : List Visit) (sv : Server)
        → IsBound k sv.sock
        → IsClear k ends sv.sock
        → BreaksBefore visits sv
        → HasOnlyConn k ends (serve_visits repr c visits sv).sock
    unfolding serve_visits
    serve_visits-HasOnlyConn [] sv b clear broke = IsClear-HasOnlyConn k ends sv.sock clear
    serve_visits-HasOnlyConn (v ∷ []) sv b clear broke =
        serve_accepted-HasOnlyConn v (accept_client v sv) (accept_client-Accepting k v sv b)
          (accept_client-Ready k ends v sv b clear)
    serve_visits-HasOnlyConn (v ∷ w ∷ visits) sv b clear (broke, later) =
        let accepting = accept_client-Accepting k v sv b in
        serve_visits-HasOnlyConn (w ∷ visits) (serve_accepted repr c v (accept_client v sv))
          (serve_accepted-IsBound repr c k v (accept_client v sv) accepting)
          (serve_accepted-IsClear v (accept_client v sv) accepting
            (accept_client-Ready k ends v sv b clear) broke)
          later

  -- A server that listens on socket `k` runs through any connections, and no sockets are open but that
  -- and the wakeup sockets that it has: whatever arrives, however accepting, reading, handling and
  -- replying fail, and wherever `stop` ends the loop of the last connection, while the loops before it
  -- are left by a `break`, no socket is open when it has run, the wakeup sockets included.
  pub run_closes :
      (k : ℕ) (visits : List Visit) (t : Threaded)
      → IsBound k t.server.sock
      → IsClear k (t.reader, t.writer) t.server.sock
      → BreaksBefore visits t.server
      → (i : ℕ) → ((run repr c visits t).server.sock.os i).is_open ≡ false
  unfolding run
  run_closes k visits t b clear broke i =
      let ends : Option ℕ × Option ℕ = (t.reader, t.writer) in
      let left = serve_visits repr c visits t.server in
      close_wakeup-closed _ i (
        close_rest k ends left.sock i (serve_visits-IsBound repr c k visits t.server b)
          (serve_visits-HasOnlyConn k ends visits t.server b clear broke))
