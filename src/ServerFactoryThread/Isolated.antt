-- ===== src/ServerFactoryThread/Isolated.antt =====
-- A `ServerFactoryThread` closes its connection and touches no other socket.
use python_json_socket.Prelude.{ℕ, ◌≡◌, ◌≢◌, ◌∙◌, Bool, true, false, List, [], ◌∷◌, some, Text}
use python_json_socket.Codec.{Codec, Value}
use python_json_socket.JsonSocket.{State}
use python_json_socket.JsonSocket.Close.{close}
use python_json_socket.JsonSocket.Close.Closed.{close_both}
use python_json_socket.JsonSocket.Local.{Local, Local-refl, Local-trans}
use python_json_socket.Stats.{Now}
use python_json_socket.Serving.{Server, Turn, serve_turn}
use python_json_socket.ThreadedServer.Listening.{serve_turn-Local}
use python_json_socket.ServerFactoryThread.{next_turn, work_loop, run}

module _ (repr : Value → Text) (c : Codec) (h : ℕ) where
  next_turn-Local :
      (s : State) (next : Server → Server) (r : Bool × Server)
      → s.self.conn ≡ some h
      → Local h s r.1.sock
      → ((sv : Server) → sv.sock.self.conn ≡ some h → Local h sv.sock (next sv).sock)
      → Local h s (next_turn repr c next r).sock
  next_turn-Local s next (true, sv) conn l go =
      Local-trans h s sv.sock _ l (go sv (l.same_conn ∙ conn))
  next_turn-Local s next (false, sv) conn l go = l

  work_loop-Local :
      (turns : List Turn) (sv : Server)
      → sv.sock.self.conn ≡ some h
      → Local h sv.sock (work_loop repr c turns sv).sock
  unfolding work_loop
  work_loop-Local [] sv conn = Local-refl h sv.sock
  work_loop-Local (turn ∷ turns) sv conn =
      next_turn-Local sv.sock (work_loop repr c turns) (serve_turn repr c turn sv) conn
        (serve_turn-Local repr c h turn sv conn) (work_loop-Local turns)

  -- When a worker, whose socket and connection are `h`, has run, whatever it met: `h` is closed, and
  -- every other socket of the process is as it was.
  pub run_isolated :
      (turns : List Turn) (finish : Now) (sv : Server)
      → sv.sock.self.conn ≡ some h
      → sv.sock.self.socket ≡ some h
      → (((run repr c turns finish sv).sock.os h).is_open ≡ false)
        × ((i : ℕ) → i ≢ h → (run repr c turns finish sv).sock.os i ≡ sv.sock.os i)
  unfolding run close
  run_isolated turns finish sv conn main =
      let l = work_loop-Local turns sv conn in
      let (shut, shut_main, self, others) =
        close_both h h (work_loop repr c turns sv).sock (l.same_conn ∙ conn)
          (l.same_socket ∙ main) in
      (shut, λ i d. others i d d ∙ l.others i d)
