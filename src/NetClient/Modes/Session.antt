-- ===== src/NetClient/Modes/Session.antt =====
-- A client of net_client.py and the echo server of net_server.py, from one end to the other.
use python_json_socket.Prelude.{
  ℕ, zero, suc, ◌≡◌, refl, sym, ap, ◌∙◌, Bool, true, false, List, [], ◌∷◌, ◌++◌, append-nil,
  append_assoc, All, length, map, Option, some, Text,
}
use python_json_socket.Framing.Frame.{header_bytes}
use python_json_socket.Codec.{Codec, Value, IsLossless}
use python_json_socket.JsonSocket.{State, M, ok, bind-ok, pure, ◌>>=◌}
use python_json_socket.Exchange.{IsSendable, wire}
use python_json_socket.Serving.{Server, Turn}
use python_json_socket.Serving.Replies.{IsServing, Answers}
use python_json_socket.ServerFactoryThread.{work_loop}
use python_json_socket.ServerFactoryThread.Replies.{work_loop-replies}
use python_json_socket.Stats.{Now}
use python_json_socket.NetServer.{echo_turn}
use python_json_socket.NetClient.{make_payload}
use python_json_socket.NetClient.Echoed.{echo_of-make_payload}
use python_json_socket.NetClient.Sending.{Corruption, send_and_expect, send_maybe_with_error}
use python_json_socket.NetClient.Modes.{
  Options, is_one, Draw, content_of, or_reconnect, send_message, send_messages,
}
use python_json_socket.NetClient.Sending.Expected.{echo_reply, send_and_expect-Expects}

-- The passes of the echo server's worker at these times.
abbrev pub turns_at : (Value → Text) → List (Now × Now) → List Turn
turns_at repr [] = []
turns_at repr ((at_read, at_reply) ∷ times) = echo_turn repr at_read at_reply ∷ turns_at repr times

turns_at-Answers :
    (repr : Value → Text) (times : List (Now × Now))
    → All (Answers echo_reply) (turns_at repr times)
unfolding echo_turn
turns_at-Answers repr [] = tt
turns_at-Answers repr ((at_read, at_reply) ∷ times) = (λ v. refl, turns_at-Answers repr times)

length-turns_at :
    (repr : Value → Text) (times : List (Now × Now)) → length (turns_at repr times) ≡ length times
length-turns_at repr [] = refl
length-turns_at repr ((at_read, at_reply) ∷ times) = ap suc (length-turns_at repr times)

-- Without error injection the payload is sent as it is.
send_maybe_with_error-calm :
    (c : Codec) (chance : ℕ) (mode : Corruption) (payload : Value) (expected : Text) (read : Bool)
    (s t : State) (r : Option Value)
    → send_and_expect c payload expected read s ≡ (ok r, t)
    → send_maybe_with_error c chance mode payload expected false read s ≡ (ok true, t)
unfolding send_maybe_with_error
send_maybe_with_error-calm c chance mode payload expected read s t r e =
    bind-ok (send_and_expect c payload expected read) (λ _. pure true) s t r e

module _ (opts : Options) (two_seconds client_id : ℕ) (label : Text) (pads : Draw → ℕ)
    (reaches : ℕ → ℕ → Bool) (draws : ℕ → Draw) where
  -- The payload of a number, and those of `n` numbers from `seq` on.
  abbrev payload_at : ℕ → Value
  payload_at seq = make_payload client_id seq label (pads (draws seq)) (content_of (draws seq))

  abbrev pub payloads : ℕ → ℕ → List Value
  payloads zero seq = []
  payloads (suc n) seq = payload_at seq ∷ payloads n (suc seq)

  length-payloads : (n seq : ℕ) → length (payloads n seq) ≡ n
  length-payloads zero seq = refl
  length-payloads (suc n) seq = ap suc (length-payloads n (suc seq))

  module _ (c : Codec) (L : IsLossless c) (ours limit : Option ℕ) (main h : ℕ)
      (calm : is_one opts.error ≡ false) (reads : is_one opts.read ≡ true) where
    send_message-echoed :
        (seq : ℕ) (s t : State)
        → send_and_expect c (payload_at seq) (content_of (draws seq)) true s
          ≡ (ok (some (echo_reply (payload_at seq))), t)
        → send_message c opts two_seconds client_id label pads (reaches seq) seq (draws seq) s
          ≡ (ok tt, t)
    unfolding send_message
    send_message-echoed seq s t e =
        let expected = content_of (draws seq) in
        let send : Bool → Bool → M Bool = λ errors read.
          send_maybe_with_error c (draws seq).chance (draws seq).corruption (payload_at seq)
            expected errors read in
        let next = or_reconnect c opts two_seconds (reaches seq) in
        ap (λ b. (send b (is_one opts.read) >>= next) s) calm
        ∙ ap (λ b. (send false b >>= next) s) reads
        ∙ bind-ok (send false true) next s t true (
            send_maybe_with_error-calm c (draws seq).chance (draws seq).corruption (payload_at seq)
              expected true s t (some (echo_reply (payload_at seq))) e)

    -- All of them, one after the other.
    pub record Echoes (vs : List Value) (asked : All (IsSendable c ours limit) vs) (n seq : ℕ)
        (rest : List ℕ) (s : State) : Type 0 where
      pub after : State
      pub result :
          send_messages c opts two_seconds client_id label pads reaches draws n seq s
          ≡ (ok tt, after)
      pub delivered : (after.os h).delivered ≡ (s.os h).delivered ++ wire c ours limit vs asked
      pub ready : IsServing main h ours rest after

    send_messages-Echoes :
        (n seq : ℕ) (asked : All (IsSendable c ours limit) (payloads n seq))
        (told : All (IsSendable c limit ours) (map echo_reply (payloads n seq))) (rest : List ℕ)
        (s : State)
        → IsServing main h ours (wire c limit ours (map echo_reply (payloads n seq)) told ++ rest) s
        → Echoes (payloads n seq) asked n seq rest s
    unfolding send_messages
    send_messages-Echoes zero seq asked told rest s ready = record {
      after = s;
      result = refl;
      delivered = sym (append-nil (s.os h).delivered);
      ready = ready;
    }
    send_messages-Echoes (suc n) seq (one, asked) (back, told) rest s ready =
        let later = wire c limit ours (map echo_reply (payloads n (suc seq))) told in
        let first =
          send_and_expect-Expects c L ours limit main h (payload_at seq) (content_of (draws seq))
            one back (later ++ rest) s
            (echo_of-make_payload client_id seq label (pads (draws seq)) (content_of (draws seq)))
            (record {
              is_main = ready.is_main;
              has_limit = ready.has_limit;
              can_send = ready.can_send;
              has_stream = record {
                is_conn = ready.has_stream.is_conn;
                is_open = ready.has_stream.is_open;
                stream =
                    ready.has_stream.stream
                    ∙ append_assoc (header_bytes back.payload ++ back.payload) later rest
                    ∙ append_assoc (header_bytes back.payload) back.payload (later ++ rest);
              };
            }) in
        let more = send_messages-Echoes n (suc seq) asked told rest first.after first.ready in
        let frame = header_bytes one.payload ++ one.payload in
        let sent = wire c ours limit (payloads n (suc seq)) asked in
        record {
          after = more.after;
          result =
              bind-ok
                (send_message c opts two_seconds client_id label pads (reaches seq) seq (draws seq))
                (λ _.
                  send_messages c opts two_seconds client_id label pads reaches draws n (suc seq))
                s first.after tt (send_message-echoed seq s first.after first.result)
              ∙ more.result;
          delivered =
              more.delivered
              ∙ ap (λ l. l ++ sent) first.delivered
              ∙ append_assoc (s.os h).delivered frame sent;
          ready = more.ready;
        }

    -- A client with error injection off and reading on has `n` messages to send, and an echo server's
    -- worker makes as many passes. Both connections take what they are sent; payloads and answers
    -- can be encoded and are within the limits of both ends; the worker has the frames of the
    -- payloads to receive and the client those of the answers, each in whatever segments. The client
    -- raises nothing, so that every response carried the data that was sent, hands over exactly the
    -- frames that the worker has to receive, and the worker exactly those that the client has.
    -- Both connections stay open, and each end has what follows to receive.
    pub session :
        (repr : Value → Text) (n seq : ℕ) (asked : All (IsSendable c ours limit) (payloads n seq))
        (told : All (IsSendable c limit ours) (map echo_reply (payloads n seq)))
        (rest left : List ℕ) (s : State) (times : List (Now × Now)) (main' g : ℕ) (sv : Server)
        → length times ≡ n
        → IsServing main h ours (wire c limit ours (map echo_reply (payloads n seq)) told ++ rest) s
        → IsServing main' g limit (wire c ours limit (payloads n seq) asked ++ left) sv.sock
        → Echoes (payloads n seq) asked n seq rest s
          × ((((work_loop repr c (turns_at repr times) sv).sock.os g).delivered
                ≡ (sv.sock.os g).delivered
                  ++ wire c limit ours (map echo_reply (payloads n seq)) told)
              × IsServing main' g limit left (work_loop repr c (turns_at repr times) sv).sock)
    session repr n seq asked told rest left s times main' g sv same client worker = (
      send_messages-Echoes n seq asked told rest s client,
      work_loop-replies repr c L echo_reply ours limit main' g (payloads n seq)
          (turns_at repr times) sv left asked told
          (length-turns_at repr times ∙ same ∙ sym (length-payloads n seq))
          (turns_at-Answers repr times) worker,
    )
