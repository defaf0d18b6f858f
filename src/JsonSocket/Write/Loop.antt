-- ===== src/JsonSocket/Write/Loop.antt =====
-- The loop of `_send`: with fuel for each byte it ends, and what has been handed over at each end.
use python_json_socket.Prelude.{
  ℕ, zero, suc, ◌+◌, ◌-◌, ◌≤◌, ◌<◌, ◌≡◌, refl, sym, ap, ◌∙◌, inl, inr, true, List, [], ◌++◌,
  append-nil, append_assoc, length, take, drop, drop-drop, drop_all, take-append-drop, length-drop,
  arith, ltb, Bool-cases, ltb→lt, ltb_false→le,
}
use python_json_socket.Os.{Sock, Sent, took, os_error, send}
use python_json_socket.Os.Sending.{Willing, Gives, send-Gives}
use python_json_socket.JsonSocket.Write.{
  WriteExit, all_sent, refused, cut_off, write_step, send_loop,
}

-- `left` is what the loop still had to hand over: all of it has been delivered, or a proper prefix,
-- and then the socket was not willing.
abbrev pub Writes : List ℕ → Sock → WriteExit × Sock → Type 0
Writes left s (all_sent, s') =
    (s'.delivered ≡ s.delivered ++ left)
    × (s'.is_open ≡ true)
    × (Willing s.outbound → Willing s'.outbound)
Writes left s (refused, s') =
    (front : List ℕ) × (back : List ℕ) × (left ≡ front ++ back)
    × (0 < length back)
    × (s'.delivered ≡ s.delivered ++ front)
    × (s'.is_open ≡ true)
    × (Willing s.outbound → ⊥)
Writes left s (cut_off, s') = ⊥

-- One more `send` in front of a loop that ended.
Writes-more :
    (n : ℕ) (left : List ℕ) (s t : Sock) (run : WriteExit × Sock)
    → t.delivered ≡ s.delivered ++ take n left
    → (Willing s.outbound → Willing t.outbound)
    → Writes (drop n left) t run
    → Writes left s run
Writes-more n left s t (all_sent, u) e w (d, o, k) = (
  d
      ∙ ap (λ l. l ++ drop n left) e
      ∙ append_assoc s.delivered (take n left) (drop n left)
      ∙ ap (λ l. s.delivered ++ l) (take-append-drop n left),
  o,
  λ v. k (w v),
)
Writes-more n left s t (refused, u) e w (front, back, p, q, d, o, k) = (
  take n left ++ front,
  back,
  sym (take-append-drop n left)
      ∙ ap (λ l. take n left ++ l) p
      ∙ sym (append_assoc (take n left) front back),
  q,
  d ∙ ap (λ l. l ++ front) e ∙ append_assoc s.delivered (take n left) front,
  o,
  λ v. k (w v),
)
Writes-more n left s t (cut_off, u) e w h = h

write_step-Writes :
    (msg : List ℕ) (sent : ℕ) (s : Sock) (next : ℕ → Sock → WriteExit × Sock) (r : Sent × Sock)
    → sent < length msg
    → ((n : ℕ) (t : Sock)
        → t.is_open ≡ true
        → sent < n
        → n ≤ length msg
        → Writes (drop n msg) t (next n t))
    → Gives (drop sent msg) s r
    → Writes (drop sent msg) s (write_step next sent r)
write_step-Writes msg sent s next (os_error, t) lt ih (d, o, w) = (
  [],
  drop sent msg,
  refl,
  omega (arith, length-drop sent msg),
  d ∙ sym (append-nil s.delivered),
  o,
  w,
)
write_step-Writes msg sent s next (took zero, t) lt ih (le, d, o, w, k) = (
  [],
  drop sent msg,
  refl,
  omega (arith, length-drop sent msg),
  d,
  o,
  λ v. absurd (omega (arith, w v (omega (arith, length-drop sent msg)))),
)
write_step-Writes msg sent s next (took (suc n), t) lt ih (le, d, o, w, k) =
    Writes-more (suc n) (drop sent msg) s t (next (sent + suc n) t) d k (
      rw (drop-drop sent (suc n) msg)
        (ih (sent + suc n) t o (omega arith) (omega (arith, length-drop sent msg))))

pub send_loop-Writes :
    (fuel : ℕ) (msg : List ℕ) (sent : ℕ) (s : Sock)
    → s.is_open ≡ true
    → length msg - sent < fuel
    → Writes (drop sent msg) s (send_loop fuel msg sent s)
unfolding send_loop
send_loop-Writes zero msg sent s o hf = absurd (omega arith)
send_loop-Writes (suc fuel) msg sent s o hf = elim (Bool-cases (ltb sent (length msg))) [
  | inl more ↦ rw more (
      write_step-Writes msg sent s (send_loop fuel msg) (send (drop sent msg) s) (ltb→lt _ _ more)
        (λ n t ot lt le. send_loop-Writes fuel msg n t ot (omega arith))
        (send-Gives (drop sent msg) s o))
  | inr enough ↦ rw enough (
    sym (append-nil s.delivered)
        ∙ ap (λ l. s.delivered ++ l) (sym (drop_all sent msg (ltb_false→le _ _ enough))),
    o,
    λ w. w,
  )
]
