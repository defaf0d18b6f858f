-- ===== src/JsonSocket/Write/Framed.antt =====
-- `send_obj` on a connection that takes what it is sent: the header and the payload are handed
-- over, in this order and nothing else.
use python_json_socket.Prelude.{
  ℕ, suc, ◌^◌, ◌<◌, ◌≡◌, refl, ap, ◌∙◌, true, List, ◌++◌, append_assoc, length, some, Text, arith,
  ==_refl,
}
use python_json_socket.Framing.{header_of}
use python_json_socket.Framing.Frame.{header_bytes, header_of_fits}
use python_json_socket.Codec.{Codec, Value}
use python_json_socket.Os.{Sock}
use python_json_socket.Os.Sending.{Willing}
use python_json_socket.JsonSocket.Write.Half.{send_loop-inbound}
use python_json_socket.JsonSocket.{
  State, ok, bind-ok, or_raise, struct_error, type_error, encode_error, put_sock, ◌>>=◌,
}
use python_json_socket.JsonSocket.Write.{
  WriteExit, all_sent, refused, cut_off, send_loop, send_bytes, send_on, send_payload, send_obj,
  send_text, finish_send, check_send_size,
}
use python_json_socket.JsonSocket.Write.Loop.{Writes, send_loop-Writes}
use python_json_socket.JsonSocket.Message.Framed.{Fits}

-- The connection is socket `h`, open, and every `send` to come takes something.
pub record CanSend (h : ℕ) (s : State) : Type 0 where
  pub is_conn : s.self.conn ≡ some h
  pub is_open : (s.os h).is_open ≡ true
  pub willing : Willing (s.os h).outbound

-- `msg` has been handed over, behind what had been before.
pub record HandsOver (msg : List ℕ) (h : ℕ) (s after : State) : Type 0 where
  pub same_self : after.self ≡ s.self
  pub delivered : (after.os h).delivered ≡ (s.os h).delivered ++ msg
  pub same_inbound : (after.os h).inbound ≡ (s.os h).inbound
  pub can_send : CanSend h after

finish_all :
    (msg : List ℕ) (h : ℕ) (s : State) (run : WriteExit × Sock)
    → CanSend h s
    → Writes msg (s.os h) run
    → run.1.inbound ≡ (s.os h).inbound
    → (finish_send run.0 (put_sock h run.1 s) ≡ (ok tt, put_sock h run.1 s))
      × HandsOver msg h s (put_sock h run.1 s)
finish_all msg h s (all_sent, t) can (d, o, w) same = (
  refl,
  record {
    same_self = refl;
    delivered = rw (==_refl h) d;
    same_inbound = rw (==_refl h) same;
    can_send = record {
      is_conn = can.is_conn;
      is_open = rw (==_refl h) o;
      willing = rw (==_refl h) (w can.willing);
    };
  },
)
finish_all msg h s (refused, t) can (front, back, p, q, d, o, w) same = absurd (w can.willing)
finish_all msg h s (cut_off, t) can e same = absurd e

pub send_bytes-HandsOver :
    (msg : List ℕ) (h : ℕ) (s : State)
    → CanSend h s
    → (after : State) × (send_bytes msg s ≡ (ok tt, after)) × HandsOver msg h s after
unfolding send_bytes
send_bytes-HandsOver msg h s can =
    let run = send_loop (suc (length msg)) msg 0 (s.os h) in
    let (result, over) =
      finish_all msg h s run can
        (send_loop-Writes (suc (length msg)) msg 0 (s.os h) can.is_open (omega arith))
        (send_loop-inbound (suc (length msg)) msg 0 (s.os h)) in
    (put_sock h run.1 s, ap (λ c. send_on c msg s) can.is_conn ∙ result, over)

check_send_size-Fits :
    (size : ℕ) (s : State) → Fits s.self.max_message_size size → check_send_size size s ≡ (ok tt, s)
check_send_size-Fits size s fits = ground arith

-- What a successful `send_obj` leaves.
pub record Sends (payload : List ℕ) (h : ℕ) (s after : State) : Type 0 where
  pub same_self : after.self ≡ record s.self { last_send_size = some (length payload) }
  pub delivered : (after.os h).delivered ≡ (s.os h).delivered ++ (header_bytes payload ++ payload)
  pub same_inbound : (after.os h).inbound ≡ (s.os h).inbound
  pub can_send : CanSend h after

module _ (payload : List ℕ) (h : ℕ) (s : State) where
  noted : State
  noted = record s { self = record s.self { last_send_size = some (length payload) } }

  noted-CanSend : CanSend h s → CanSend h noted
  unfolding noted
  noted-CanSend can = record { is_conn = can.is_conn; is_open = can.is_open; willing = can.willing }

  pub send_payload-Sends :
      length payload < 2 ^ 32
      → Fits s.self.max_message_size (length payload)
      → CanSend h s
      → (after : State) × (send_payload payload s ≡ (ok tt, after)) × Sends payload h s after
  unfolding send_payload noted
  send_payload-Sends small fits can =
      let (mid, first, one) =
        send_bytes-HandsOver (header_bytes payload) h noted (noted-CanSend can) in
      let (after, second, two) = send_bytes-HandsOver payload h mid one.can_send in
      (
        after,
        bind-ok (check_send_size (length payload))
              (λ _. or_raise struct_error (header_of payload) >>= λ header.
                send_bytes header >>= λ _. send_bytes payload)
              noted noted tt (check_send_size-Fits (length payload) noted fits)
            ∙ bind-ok (or_raise struct_error (header_of payload))
                (λ header. send_bytes header >>= λ _. send_bytes payload) noted noted
                (header_bytes payload)
                (ap (λ o. or_raise struct_error o noted) (header_of_fits payload small))
            ∙ bind-ok (send_bytes (header_bytes payload)) (λ _. send_bytes payload) noted mid tt
                first
            ∙ second,
        record {
          same_self = two.same_self ∙ one.same_self;
          delivered =
              two.delivered
              ∙ ap (λ l. l ++ payload) one.delivered
              ∙ append_assoc (s.os h).delivered (header_bytes payload) payload;
          same_inbound = two.same_inbound ∙ one.same_inbound;
          can_send = two.can_send;
        },
      )

module _ (c : Codec) (v : Value) (t : Text) (payload : List ℕ) (main h : ℕ) (s : State) where
  pub send_obj-Sends :
      c.dumps v ≡ some t
      → c.encode t ≡ some payload
      → s.self.socket ≡ some main
      → length payload < 2 ^ 32
      → Fits s.self.max_message_size (length payload)
      → CanSend h s
      → (after : State) × (send_obj c v s ≡ (ok tt, after)) × Sends payload h s after
  unfolding send_obj
  send_obj-Sends hd he hm small fits can =
      let (after, result, sends) = send_payload-Sends payload h s small fits can in
      (
        after,
        bind-ok (or_raise type_error (c.dumps v)) (send_text s.self.socket c) s s t
              (ap (λ o. or_raise type_error o s) hd)
            ∙ ap (λ o. send_text o c t s) hm
            ∙ bind-ok (or_raise encode_error (c.encode t)) send_payload s s payload
                (ap (λ o. or_raise encode_error o s) he)
            ∙ result,
        sends,
      )
