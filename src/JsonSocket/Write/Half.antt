-- ===== src/JsonSocket/Write/Half.antt =====
-- The loop of `_send` leaves what the connection has still to receive alone.
use python_json_socket.Prelude.{
  ℕ, zero, suc, ◌+◌, ◌≡◌, refl, ◌∙◌, List, length, drop, ltb, Bool-cases, inl, inr,
}
use python_json_socket.Os.{Sock, Sent, took, os_error, send}
use python_json_socket.Os.Halves.{send-inbound}
use python_json_socket.JsonSocket.Write.{WriteExit, write_step, send_loop}

write_step-inbound :
    (next : ℕ → Sock → WriteExit × Sock) (sent : ℕ) (s : Sock) (r : Sent × Sock)
    → ((all : ℕ) (t : Sock) → (next all t).1.inbound ≡ t.inbound)
    → r.1.inbound ≡ s.inbound
    → (write_step next sent r).1.inbound ≡ s.inbound
write_step-inbound next sent s (os_error, t) h p = p
write_step-inbound next sent s (took zero, t) h p = p
write_step-inbound next sent s (took (suc chunk), t) h p = h (sent + suc chunk) t ∙ p

pub send_loop-inbound :
    (fuel : ℕ) (msg : List ℕ) (sent : ℕ) (s : Sock)
    → (send_loop fuel msg sent s).1.inbound ≡ s.inbound
unfolding send_loop
send_loop-inbound zero msg sent s = refl
send_loop-inbound (suc fuel) msg sent s = elim (Bool-cases (ltb sent (length msg))) [
  | inl short ↦ rw short (
      write_step-inbound (send_loop fuel msg) sent s (send (drop sent msg) s)
        (send_loop-inbound fuel msg) (send-inbound (drop sent msg) s))
  | inr done ↦ rw done refl
]
