-- ===== src/ThreadedServer/Wakeup/Drained.antt =====
-- `_drain_wakeup` ends.
use python_json_socket.Prelude.{
  ℕ, zero, suc, ◌<◌, ◌≡◌, refl, ap, ◌∙◌, true, List, [], ◌∷◌, Option, none, some, length,
  length-append, arith,
}
use python_json_socket.Os.{Sock, Received, got, timeout, os_error, recv}
use python_json_socket.Os.Stream.{pending, Splits, recv-Splits, recv-sock}
use python_json_socket.ThreadedServer.Wakeup.{
  Wakeup, drain_step, drain_on, drain_loop, drain_wakeup,
}

drain_step_ends :
    (fuel : ℕ) (before : List ℕ) (r : Received × Sock)
    → ((s : Sock)
        → s.is_open ≡ true
        → length (pending s.inbound) < fuel
        → (drain_loop fuel s).0 ≡ true)
    → r.1.is_open ≡ true
    → length before < suc fuel
    → Splits 1024 before (r.0, r.1.inbound)
    → (drain_step (drain_loop fuel) r).0 ≡ true
drain_step_ends fuel before (got [], s) again up enough split = refl
drain_step_ends fuel before (got (x ∷ xs), s) again up enough split =
    again s up (omega (arith, ap length split.1, length-append (x ∷ xs) (pending s.inbound)))
drain_step_ends fuel before (timeout, s) again up enough split = refl
drain_step_ends fuel before (os_error, s) again up enough split = refl

drain_loop_ends :
    (fuel : ℕ) (s : Sock)
    → s.is_open ≡ true
    → length (pending s.inbound) < fuel
    → (drain_loop fuel s).0 ≡ true
unfolding drain_loop
drain_loop_ends zero s up enough = absurd (omega arith)
drain_loop_ends (suc fuel) s up enough =
    drain_step_ends fuel (pending s.inbound) (recv 1024 s) (drain_loop_ends fuel)
      (ap (λ (x : Sock). x.is_open) (recv-sock 1024 s) ∙ up) enough (recv-Splits 1023 s up)

-- The bytes that are there on the reading end.
abbrev pub waiting : Wakeup → Option ℕ → List ℕ
waiting s none = []
waiting s (some h) = pending (s.os h).inbound

abbrev pub IsOpenEnd : Wakeup → Option ℕ → Type 0
IsOpenEnd s none = Unit
IsOpenEnd s (some h) = (s.os h).is_open ≡ true

drain_on_ends :
    (fuel : ℕ) (s : Wakeup) (reader : Option ℕ)
    → IsOpenEnd s reader
    → length (waiting s reader) < fuel
    → (drain_on reader fuel s).0 ≡ true
drain_on_ends fuel s none up enough = refl
drain_on_ends fuel s (some h) up enough = drain_loop_ends fuel (s.os h) up enough

-- With an open reading end or none, `_drain_wakeup` ends, by a round for each byte that is there and
-- one more.
pub drain_wakeup_ends :
    (s : Wakeup)
    → IsOpenEnd s s.reader
    → (drain_wakeup (suc (length (waiting s s.reader))) s).0 ≡ true
unfolding drain_wakeup
drain_wakeup_ends s up =
    drain_on_ends (suc (length (waiting s s.reader))) s s.reader up (omega arith)
