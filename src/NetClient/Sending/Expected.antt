-- ===== src/NetClient/Sending/Expected.antt =====
-- `_send_and_expect` at an echo server: the response carries the data.
use python_json_socket.Prelude.{
  ℕ, ◌≡◌, refl, ap, ◌∙◌, true, List, ◌++◌, Option, some, Text, text_eq_refl,
}
use python_json_socket.Framing.Frame.{header_bytes}
use python_json_socket.Codec.{Codec, Value, str, IsLossless}
use python_json_socket.Os.Stream.{pending}
use python_json_socket.JsonSocket.{State, JsonSocket, ok, bind-ok, ◌>>=◌}
use python_json_socket.JsonSocket.Write.{send_obj}
use python_json_socket.JsonSocket.Write.Framed.{send_obj-Sends}
use python_json_socket.JsonSocket.Message.{read_obj}
use python_json_socket.JsonSocket.Message.Framed.{read_obj-Delivers}
use python_json_socket.Exchange.{IsSendable}
use python_json_socket.Serving.Replies.{IsServing}
use python_json_socket.NetServer.{summarize_payload, reply_of}
use python_json_socket.NetClient.Echoed.{echo_of}
use python_json_socket.NetClient.Sending.{send_and_expect, check_response}

-- What the echo server answers.
abbrev pub echo_reply : Value → Value
echo_reply obj = reply_of (summarize_payload obj).content

module _ (c : Codec) (L : IsLossless c) (ours limit : Option ℕ) (main h : ℕ) where
  -- A payload has been sent and its response read and compared.
  pub record Expects (payload : Value) (expected : Text) (bytes rest : List ℕ) (s : State)
      : Type 0 where
    pub after : State
    pub result : send_and_expect c payload expected true s ≡ (ok (some (echo_reply payload)), after)
    pub delivered : (after.os h).delivered ≡ (s.os h).delivered ++ bytes
    pub ready : IsServing main h ours rest after

  check_response-echo :
      (payload : Value) (expected : Text) (s : State)
      → echo_of payload ≡ str expected
      → check_response expected (echo_reply payload) s ≡ (ok (some (echo_reply payload)), s)
  check_response-echo payload expected s e = rw (e, text_eq_refl expected) refl

  pub send_and_expect-Expects :
      (payload : Value) (expected : Text) (one : IsSendable c ours limit payload)
      (back : IsSendable c limit ours (echo_reply payload)) (rest : List ℕ) (s : State)
      → echo_of payload ≡ str expected
      → IsServing main h ours (header_bytes back.payload ++ (back.payload ++ rest)) s
      → Expects payload expected (header_bytes one.payload ++ one.payload) rest s
  unfolding send_and_expect
  send_and_expect-Expects payload expected one back rest s echoes ready =
      let (t, sent, sends) =
        send_obj-Sends c payload one.text one.payload main h s one.dumped one.encoded ready.is_main
          one.small (rw ready.has_limit one.fits_ours) ready.can_send in
      let main' = ap (λ (o : JsonSocket). o.socket) sends.same_self ∙ ready.is_main in
      let limit' = ap (λ (o : JsonSocket). o.max_message_size) sends.same_self ∙ ready.has_limit in
      let read =
        read_obj-Delivers c back.payload rest h t back.text (echo_reply payload)
          (L.decode-encode back.text back.payload back.encoded)
          (L.loads-dumps (echo_reply payload) back.text back.dumped) back.small
          (rw limit' back.fits_theirs)
          (record {
            is_conn = sends.can_send.is_conn;
            is_open = sends.can_send.is_open;
            stream = ap pending sends.same_inbound ∙ ready.has_stream.stream;
          }) in
      let left = read.has_rest in
      record {
        after = read.after;
        result =
            bind-ok (send_obj c payload) (λ _. read_obj c >>= check_response expected) s t tt sent
            ∙ bind-ok (read_obj c) (check_response expected) t read.after (echo_reply payload)
                read.result
            ∙ check_response-echo payload expected read.after echoes;
        delivered = read.receives.same_delivered ∙ sends.delivered;
        ready = record {
          is_main = ap (λ (o : JsonSocket). o.socket) read.same_self ∙ main';
          has_limit = ap (λ (o : JsonSocket). o.max_message_size) read.same_self ∙ limit';
          can_send = record {
            is_conn = left.is_conn;
            is_open = left.is_open;
            willing = rw read.receives.same_outbound sends.can_send.willing;
          };
          has_stream = left;
        };
      }
