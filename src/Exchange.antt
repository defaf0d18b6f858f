-- ===== src/Exchange.antt =====
-- Messages from one end of a connection to the other: `send_obj` of each, then `read_obj` of each.
use python_json_socket.Prelude.{
  ℕ, zero, suc, ◌^◌, ◌<◌, ◌≡◌, refl, sym, ap, ◌∙◌, List, [], ◌∷◌, ◌++◌, append-nil, append_assoc,
  All, length, Option, some, Text,
}
use python_json_socket.Framing.Frame.{header_bytes}
use python_json_socket.Codec.{Codec, Value, IsLossless}
use python_json_socket.JsonSocket.{State, JsonSocket, M, ok, pure, bind-ok, ◌>>=◌, ◌>>◌}
use python_json_socket.JsonSocket.Write.{send_obj}
use python_json_socket.JsonSocket.Write.Framed.{CanSend, send_obj-Sends}
use python_json_socket.JsonSocket.Read.Exact.{HasStream}
use python_json_socket.JsonSocket.Message.{read_obj}
use python_json_socket.JsonSocket.Message.Framed.{Fits, read_obj-Delivers}

unfoldable pub send_all : Codec → List Value → M (Unit {0})
send_all c [] = pure tt
send_all c (v ∷ vs) = send_obj c v >> send_all c vs

unfoldable pub read_all : Codec → ℕ → M (List Value)
read_all c zero = pure []
read_all c (suc n) = do v ← read_obj c; vs ← read_all c n; pure (v ∷ vs)

-- A value that can be encoded, within the limits of both ends.
pub record IsSendable (c : Codec) (ours theirs : Option ℕ) (v : Value) : Type 0 where
  pub text : Text
  pub payload : List ℕ
  pub dumped : c.dumps v ≡ some text
  pub encoded : c.encode text ≡ some payload
  pub small : length payload < 2 ^ 32
  pub fits_ours : Fits ours (length payload)
  pub fits_theirs : Fits theirs (length payload)

-- The frames of the values, one behind the other.
abbrev pub wire :
    (c : Codec) (ours theirs : Option ℕ) (vs : List Value)
    → All (IsSendable c ours theirs) vs
    → List ℕ
wire c ours theirs [] all = []
wire c ours theirs (v ∷ vs) (one, more) =
    (header_bytes one.payload ++ one.payload) ++ wire c ours theirs vs more

module _ (c : Codec) (ours theirs : Option ℕ) (main h : ℕ) where
  -- What sending all of them leaves.
  pub record HasSent (bytes : List ℕ) (s after : State) : Type 0 where
    pub delivered : (after.os h).delivered ≡ (s.os h).delivered ++ bytes
    pub can_send : CanSend h after

  send_all-wire :
      (vs : List Value) (all : All (IsSendable c ours theirs) vs) (s : State)
      → s.self.socket ≡ some main
      → s.self.max_message_size ≡ ours
      → CanSend h s
      → (after : State) × (send_all c vs s ≡ (ok tt, after))
        × HasSent (wire c ours theirs vs all) s after
  unfolding send_all
  send_all-wire [] all s m l can =
      (s, refl, record { delivered = sym (append-nil (s.os h).delivered); can_send = can })
  send_all-wire (v ∷ vs) (one, more) s m l can =
      let (mid, first, sends) =
        send_obj-Sends c v one.text one.payload main h s one.dumped one.encoded m one.small
          (rw l one.fits_ours) can in
      let (after, others, sent) =
        send_all-wire vs more mid (ap (λ (o : JsonSocket). o.socket) sends.same_self ∙ m)
          (ap (λ (o : JsonSocket). o.max_message_size) sends.same_self ∙ l) sends.can_send in
      (
        after,
        bind-ok (send_obj c v) (λ _. send_all c vs) s mid tt first ∙ others,
        record {
          delivered =
              sent.delivered
              ∙ ap (λ l. l ++ wire c ours theirs vs more) sends.delivered
              ∙ append_assoc (s.os h).delivered (header_bytes one.payload ++ one.payload)
                  (wire c ours theirs vs more);
          can_send = sent.can_send;
        },
      )

  read_all-wire :
      IsLossless c
      → (vs : List Value) (all : All (IsSendable c ours theirs) vs) (rest : List ℕ) (r : State)
      → r.self.max_message_size ≡ theirs
      → HasStream h r (wire c ours theirs vs all ++ rest)
      → (after : State) × (read_all c (length vs) r ≡ (ok vs, after)) × HasStream h after rest
  unfolding read_all
  read_all-wire L [] all rest r l st = (r, refl, st)
  read_all-wire L (v ∷ vs) (one, more) rest r l st =
      let split =
        append_assoc (header_bytes one.payload ++ one.payload) (wire c ours theirs vs more) rest
        ∙ append_assoc (header_bytes one.payload) one.payload
            (wire c ours theirs vs more ++ rest) in
      let one_read =
        read_obj-Delivers c one.payload (wire c ours theirs vs more ++ rest) h r one.text v
          (L.decode-encode one.text one.payload one.encoded) (L.loads-dumps v one.text one.dumped)
          one.small (rw l one.fits_theirs)
          (record { is_conn = st.is_conn; is_open = st.is_open; stream = st.stream ∙ split }) in
      let (after, others, left) =
        read_all-wire L vs more rest one_read.after
          (ap (λ (o : JsonSocket). o.max_message_size) one_read.same_self ∙ l) one_read.has_rest in
      (
        after,
        bind-ok (read_obj c) (λ v'. read_all c (length vs) >>= λ vs'. pure (v' ∷ vs')) r
              one_read.after v one_read.result
            ∙ bind-ok (read_all c (length vs)) (λ vs'. pure (v ∷ vs')) one_read.after after vs
                others,
        left,
      )

-- Any values that both ends can encode and accept are sent without an error on a connection that
-- takes what it is sent, in whatever pieces; exactly their frames are handed over. An end that has
-- these bytes to receive, in whatever segments and with more behind them, reads the same values in
-- the same order, and then has the rest to receive.
pub exchange :
    (c : Codec) (L : IsLossless c) (ours theirs : Option ℕ) (main h g : ℕ) (vs : List Value)
    (all : All (IsSendable c ours theirs) vs) (s r : State) (rest : List ℕ)
    → s.self.socket ≡ some main
    → s.self.max_message_size ≡ ours
    → CanSend h s
    → r.self.max_message_size ≡ theirs
    → HasStream g r (wire c ours theirs vs all ++ rest)
    → ((after : State) × (send_all c vs s ≡ (ok tt, after))
        × ((after.os h).delivered ≡ (s.os h).delivered ++ wire c ours theirs vs all))
      × ((after : State) × (read_all c (length vs) r ≡ (ok vs, after)) × HasStream g after rest)
exchange c L ours theirs main h g vs all s r rest m l can k st =
    let (after, result, sent) = send_all-wire c ours theirs main h vs all s m l can in
    ((after, result, sent.delivered), read_all-wire c ours theirs main g L vs all rest r k st)
