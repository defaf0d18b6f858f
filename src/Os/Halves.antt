-- ===== src/Os/Halves.antt =====
-- Receiving leaves the sending half of a socket alone, and sending the receiving half.
use python_json_socket.Prelude.{
  ℕ, ◌≡◌, refl, ◌∙◌, List, [], ◌∷◌, Bool, true, false, Bool-cases, inl, inr, if◌then◌else◌,
}
use python_json_socket.Os.{Send, takes, refuses, Sock, os_error, recv, send, send_to}

-- The sending half is the same.
pub record Receives (s after : Sock) : Type 0 where
  pub same_outbound : after.outbound ≡ s.outbound
  pub same_delivered : after.delivered ≡ s.delivered

pub Receives-trans : (a b c : Sock) → Receives a b → Receives b c → Receives a c
Receives-trans a b c p q = record {
  same_outbound = q.same_outbound ∙ p.same_outbound;
  same_delivered = q.same_delivered ∙ p.same_delivered;
}

pub recv-Receives : (n : ℕ) (s : Sock) → Receives s (recv n s).1
unfolding recv
recv-Receives n s = elim (Bool-cases s.is_open) [
  | inl up ↦ rw up (record { same_outbound = refl; same_delivered = refl })
  | inr shut ↦ rw shut (record { same_outbound = refl; same_delivered = refl })
]

send_to-inbound :
    (msg : List ℕ) (script : List Send) (s : Sock) → (send_to msg script s).1.inbound ≡ s.inbound
unfolding send_to
send_to-inbound msg [] s = refl
send_to-inbound msg (takes k ∷ rest) s = refl
send_to-inbound msg (refuses ∷ rest) s = refl

pub send-inbound : (msg : List ℕ) (s : Sock) → (send msg s).1.inbound ≡ s.inbound
unfolding send
send-inbound msg s = if_open s.is_open
  where
    if_open :
        (up : Bool) → (if up then send_to msg s.outbound s else (os_error, s)).1.inbound ≡ s.inbound
    if_open true = send_to-inbound msg s.outbound s
    if_open false = refl
