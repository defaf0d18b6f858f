-- ===== src/ServerFactoryThread/Replies.antt =====
-- What the client of a worker receives: the handler's answers to its messages, in order.
use python_json_socket.Prelude.{ℕ, ◌≡◌, refl, ap, List, ◌++◌, All, length, map, Option, Text}
use python_json_socket.Codec.{Codec, Value, IsLossless}
use python_json_socket.Exchange.{IsSendable, wire}
use python_json_socket.Serving.{Server, Turn}
use python_json_socket.ServerFactoryThread.{work_loop, next_turn}
use python_json_socket.Serving.Replies.{IsServing, Answers, loop-replies}

module _ (repr : Value → Text) (c : Codec) (L : IsLossless c) (answer : Value → Value)
    (theirs limit : Option ℕ) (main h : ℕ) where
  pub work_loop-replies :
      (vs : List Value) (turns : List Turn) (sv : Server) (rest : List ℕ)
      (asked : All (IsSendable c theirs limit) vs)
      (told : All (IsSendable c limit theirs) (map answer vs))
      → length turns ≡ length vs
      → All (Answers answer) turns
      → IsServing main h limit (wire c theirs limit vs asked ++ rest) sv.sock
      → (((work_loop repr c turns sv).sock.os h).delivered
          ≡ (sv.sock.os h).delivered ++ wire c limit theirs (map answer vs) told)
        × IsServing main h limit rest (work_loop repr c turns sv).sock
  unfolding work_loop
  work_loop-replies vs turns sv rest asked told same all ready =
      loop-replies repr c L answer theirs limit main h (work_loop repr c)
        (record {
          stops = λ sv. refl;
          goes = λ turn turns sv after e. ap (next_turn repr c (work_loop repr c turns)) e;
        })
        vs turns sv rest asked told same all ready
