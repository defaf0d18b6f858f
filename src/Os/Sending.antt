-- ===== src/Os/Sending.antt =====
-- What one `send` hands over, and the sockets on which sending never fails.
use mathlib.Core.Path.{subst}
use python_json_socket.Prelude.{
  ℕ, suc, zero, ◌≤◌, ◌<◌, ◌≡◌, refl, sym, ap, true, List, [], ◌∷◌, ◌++◌, length, take, length-take,
  take-length-take, take_all, arith, if◌then◌else◌,
}
use python_json_socket.Os.{Send, takes, refuses, Sock, Sent, took, os_error, send, send_to}

-- Every `send` that is still to come takes at least one byte.
abbrev pub Willing : List Send → Type 0
Willing [] = Unit
Willing (takes zero ∷ rest) = ⊥
Willing (takes (suc k) ∷ rest) = Willing rest
Willing (refuses ∷ rest) = ⊥

-- A prefix of the message is handed over; of an open, willing socket a nonempty one.
abbrev pub Gives : List ℕ → Sock → Sent × Sock → Type 0
Gives msg s (took n, s') =
    (n ≤ length msg)
    × (s'.delivered ≡ s.delivered ++ take n msg)
    × (s'.is_open ≡ true)
    × (Willing s.outbound → 0 < length msg → 0 < n)
    × (Willing s.outbound → Willing s'.outbound)
Gives msg s (os_error, s') =
    (s'.delivered ≡ s.delivered) × (s'.is_open ≡ true) × (Willing s.outbound → ⊥)

Willing-takes : (k : ℕ) (rest : List Send) → Willing (takes k ∷ rest) → (0 < k) × Willing rest
Willing-takes zero rest w = absurd w
Willing-takes (suc k) rest w = (omega arith, w)

send_to-Gives :
    (msg : List ℕ) (script : List Send) (s : Sock)
    → s.is_open ≡ true
    → s.outbound ≡ script
    → Gives msg s (send_to msg script s)
unfolding send_to
send_to-Gives msg [] s o e = (
  omega arith,
  ap (λ l. s.delivered ++ l) (sym (take_all (length msg) msg (omega arith))),
  o,
  λ w h. h,
  λ w. w,
)
send_to-Gives msg (takes k ∷ rest) s o e = (
  omega (arith, length-take k msg),
  ap (λ l. s.delivered ++ l) (sym (take-length-take k msg)),
  o,
  λ w h. omega (arith, length-take k msg, Willing-takes k rest (rw e at w)),
  λ w. (Willing-takes k rest (rw e at w)).1,
)
send_to-Gives msg (refuses ∷ rest) s o e = (refl, o, λ w. rw e at w)

pub send-Gives : (msg : List ℕ) (s : Sock) → s.is_open ≡ true → Gives msg s (send msg s)
unfolding send
send-Gives msg s o =
    subst (λ b. Gives msg s (if b then send_to msg s.outbound s else (os_error, s))) (sym o)
      (send_to-Gives msg s.outbound s o refl)
