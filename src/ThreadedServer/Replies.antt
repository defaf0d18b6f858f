-- ===== src/ThreadedServer/Replies.antt =====
-- What a client of a `ThreadedServer` receives: the handler's answers to its messages, in order.
use python_json_socket.Prelude.{ℕ, ◌≡◌, refl, ap, List, ◌++◌, All, length, map, Option, Text}
use python_json_socket.Codec.{Codec, Value, IsLossless}
use python_json_socket.Exchange.{IsSendable, wire}
use python_json_socket.Serving.{Server, Turn}
use python_json_socket.ThreadedServer.{message_loop, next_turn}
use python_json_socket.Serving.Replies.{IsServing, Answers, loop-replies}

module _ (repr : Value → Text) (c : Codec) (L : IsLossless c) (answer : Value → Value)
    (theirs limit : Option ℕ) (main h : ℕ) where
  -- As many passes as there are messages, on a connection that takes what it is sent and has the
  -- frames of the messages to receive, in whatever segments: where the handler returns an answer to
  -- every object, and messages and answers can be encoded and are within the limits of both ends,
  -- exactly the frames of the answers are handed over, in the order of the messages. The connection
  -- stays open and has what follows the messages to receive.
  pub message_loop-replies :
      (vs : List Value) (turns : List Turn) (sv : Server) (rest : List ℕ)
      (asked : All (IsSendable c theirs limit) vs)
      (told : All (IsSendable c limit theirs) (map answer vs))
      → length turns ≡ length vs
      → All (Answers answer) turns
      → IsServing main h limit (wire c theirs limit vs asked ++ rest) sv.sock
      → (((message_loop repr c turns sv).sock.os h).delivered
          ≡ (sv.sock.os h).delivered ++ wire c limit theirs (map answer vs) told)
        × IsServing main h limit rest (message_loop repr c turns sv).sock
  unfolding message_loop
  message_loop-replies vs turns sv rest asked told same all ready =
      loop-replies repr c L answer theirs limit main h (message_loop repr c)
        (record {
          stops = λ sv. refl;
          goes = λ turn turns sv after e. ap (next_turn repr c (message_loop repr c turns)) e;
        })
        vs turns sv rest asked told same all ready
