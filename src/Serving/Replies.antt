-- ===== src/Serving/Replies.antt =====
-- What a client receives of a loop that serves its messages: the handler's answers, in order.
use python_json_socket.Prelude.{
  ℕ, ◌≡◌, sym, ap, ◌∙◌, true, List, [], ◌∷◌, ◌++◌, append-nil, append_assoc, All, length, map,
  Option, some, Text, arith,
}
use python_json_socket.Framing.Frame.{header_bytes}
use python_json_socket.Codec.{Codec, Value, IsLossless}
use python_json_socket.Os.Stream.{pending}
use python_json_socket.JsonSocket.{State, JsonSocket, ok}
use python_json_socket.JsonSocket.Write.Framed.{CanSend, send_obj-Sends}
use python_json_socket.JsonSocket.Read.Exact.{HasStream}
use python_json_socket.JsonSocket.Message.Framed.{read_obj-Delivers}
use python_json_socket.Exchange.{IsSendable, wire}
use mathlib.Core.Path.{subst}
use python_json_socket.Stats.{note_message_in}
use python_json_socket.Stats.Identity.{extract_client_id}
use python_json_socket.Serving.{Server, Turn, identify, after_read, reply, note_reply, serve_turn}

-- An end on socket `main` with an open connection `h` that takes what it is sent, and these bytes
-- to receive on it.
pub record IsServing (main h : ℕ) (limit : Option ℕ) (bytes : List ℕ) (s : State) : Type 0 where
  pub is_main : s.self.socket ≡ some main
  pub has_limit : s.self.max_message_size ≡ limit
  pub can_send : CanSend h s
  pub has_stream : HasStream h s bytes

-- The handler returns this answer to every object.
abbrev pub Answers : (Value → Value) → Turn → Type 0
Answers answer turn = (v : Value) → turn.process v ≡ ok (some (answer v))

module _ (repr : Value → Text) (c : Codec) (L : IsLossless c) (answer : Value → Value)
    (theirs limit : Option ℕ) (main h : ℕ) where
  -- One message, and the answer to it.
  record Replied (bytes rest : List ℕ) (turn : Turn) (sv : Server) : Type 0 where
    after : Server
    result : serve_turn repr c turn sv ≡ (true, after)
    delivered : (after.sock.os h).delivered ≡ (sv.sock.os h).delivered ++ bytes
    serving : IsServing main h limit rest after.sock

  replied :
      (v : Value) (one : IsSendable c theirs limit v) (back : IsSendable c limit theirs (answer v))
      (rest : List ℕ) (turn : Turn) (sv : Server)
      → Answers answer turn
      → IsServing main h limit (header_bytes one.payload ++ (one.payload ++ rest)) sv.sock
      → Replied (header_bytes back.payload ++ back.payload) rest turn sv
  unfolding serve_turn
  replied v one back rest turn sv answers ready =
      let read =
        read_obj-Delivers c one.payload rest h sv.sock one.text v
          (L.decode-encode one.text one.payload one.encoded) (L.loads-dumps v one.text one.dumped)
          one.small (rw ready.has_limit one.fits_theirs) ready.has_stream in
      let s = read.after in
      let main' = ap (λ (o : JsonSocket). o.socket) read.same_self ∙ ready.is_main in
      let limit' = ap (λ (o : JsonSocket). o.max_message_size) read.same_self ∙ ready.has_limit in
      let left = read.has_rest in
      let can : CanSend h s = record {
        is_conn = left.is_conn;
        is_open = left.is_open;
        willing = rw read.receives.same_outbound ready.can_send.willing;
      } in
      let (t, sent, sends) =
        send_obj-Sends c (answer v) back.text back.payload main h s back.dumped back.encoded main'
          back.small (rw limit' back.fits_ours) can in
      let noted = identify (turn.identifies v) (
        note_message_in s.self.last_read_size turn.at_read
          (identify (extract_client_id repr v) sv.stats)) in
      record {
        after = (note_reply turn.at_reply (ok tt, t) noted).1;
        result =
            ap (λ r. after_read repr c turn r sv.stats) read.result
            ∙ ap (λ p. reply c turn.at_reply p s noted) (answers v)
            ∙ ap (λ r. note_reply turn.at_reply r noted) sent;
        delivered =
            sends.delivered
            ∙ ap (λ l. l ++ (header_bytes back.payload ++ back.payload))
                read.receives.same_delivered;
        serving = record {
          is_main = ap (λ (o : JsonSocket). o.socket) sends.same_self ∙ main';
          has_limit = ap (λ (o : JsonSocket). o.max_message_size) sends.same_self ∙ limit';
          can_send = sends.can_send;
          has_stream = record {
            is_conn = sends.can_send.is_conn;
            is_open = sends.can_send.is_open;
            stream = ap pending sends.same_inbound ∙ left.stream;
          };
        };
      }

  -- The loop goes on after a pass that says so, and stops where no pass is left.
  pub record IsLoop (loop : List Turn → Server → Server) : Type 0 where
    pub stops : (sv : Server) → loop [] sv ≡ sv
    pub goes :
        (turn : Turn) (turns : List Turn) (sv after : Server)
        → serve_turn repr c turn sv ≡ (true, after)
        → loop (turn ∷ turns) sv ≡ loop turns after

  -- The frames of the answers have been handed over, and what follows the messages is left.
  abbrev pub HasAnswered :
      (vs : List Value)
      → All (IsSendable c limit theirs) (map answer vs)
      → List ℕ
      → Server
      → Server
      → Type 0
  HasAnswered vs told rest sv after =
      ((after.sock.os h).delivered
        ≡ (sv.sock.os h).delivered ++ wire c limit theirs (map answer vs) told)
      × IsServing main h limit rest after.sock

  pub loop-replies :
      (loop : List Turn → Server → Server) (is_loop : IsLoop loop) (vs : List Value)
      (turns : List Turn) (sv : Server) (rest : List ℕ) (asked : All (IsSendable c theirs limit) vs)
      (told : All (IsSendable c limit theirs) (map answer vs))
      → length turns ≡ length vs
      → All (Answers answer) turns
      → IsServing main h limit (wire c theirs limit vs asked ++ rest) sv.sock
      → HasAnswered vs told rest sv (loop turns sv)
  loop-replies loop l [] [] sv rest asked told same all ready =
      rw (l.stops sv) (sym (append-nil (sv.sock.os h).delivered), ready)
  loop-replies loop l [] (turn ∷ turns) sv rest asked told same all ready =
      absurd (omega (arith, same))
  loop-replies loop l (v ∷ vs) [] sv rest asked told same all ready = absurd (omega (arith, same))
  loop-replies loop l (v ∷ vs) (turn ∷ turns) sv rest (one, asked) (back, told) same (a, all)
        ready =
      let later = wire c theirs limit vs asked in
      let first = header_bytes one.payload ++ one.payload in
      let stream : pending (sv.sock.os h).inbound
          ≡ header_bytes one.payload ++ (one.payload ++ (later ++ rest)) =
        ready.has_stream.stream
        ∙ append_assoc first later rest
        ∙ append_assoc (header_bytes one.payload) one.payload (later ++ rest) in
      let now = replied v one back (later ++ rest) turn sv a (record {
        is_main = ready.is_main;
        has_limit = ready.has_limit;
        can_send = ready.can_send;
        has_stream = record {
          is_conn = ready.has_stream.is_conn;
          is_open = ready.has_stream.is_open;
          stream = stream;
        };
      }) in
      let (sent, serving) =
        loop-replies loop l vs turns now.after rest asked told (omega (arith, same)) all
          now.serving in
      let step = l.goes turn turns sv now.after now.result in
      let frame = header_bytes back.payload ++ back.payload in
      let more = wire c limit theirs (map answer vs) told in
      (
        ap (λ (r : Server). (r.sock.os h).delivered) step
            ∙ sent
            ∙ ap (λ l. l ++ more) now.delivered
            ∙ append_assoc (sv.sock.os h).delivered frame more,
        subst (λ (r : Server). IsServing main h limit rest r.sock) (sym step) serving,
      )
