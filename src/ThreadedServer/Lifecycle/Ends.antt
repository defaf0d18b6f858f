-- ===== src/ThreadedServer/Lifecycle/Ends.antt =====
-- A server that was stopped while it ran comes to its end, and one that was stopped too early does
-- not.
use mathlib.Core.Path.{subst}
use python_json_socket.Prelude.{
  ℕ, suc, ◌+◌, ◌≤◌, ◌≡◌, ◌≢◌, refl, sym, ◌∙◌, ◌⊎◌, inl, inr, false, List, [], ◌∷◌, Option, none,
  some, length, arith,
}
use python_json_socket.ThreadedServer.Lifecycle.{
  running, cleared, caller_at, Step, call, work, here, later, stopped, Pc, unborn, testing, setting,
  head, listening, waiting, selecting, draining, accepting, serving, reading, closing, ended, Life,
  Input, quiet, arrives, fails, caller_step, server_at, server_step, or_stay, serve, Reach,
}
use python_json_socket.ThreadedServer.Lifecycle.Stopped.{
  IsRunning, IsStopping, server_at-IsStopping, Reach-from,
}

-- How many steps the server's thread has left once the flag is clear.
unfoldable pub steps_left : Pc → ℕ → ℕ
steps_left ended n = 0
steps_left closing n = 1
steps_left head n = 2
steps_left waiting n = 3
steps_left serving n = 3
steps_left listening n = 4
steps_left accepting n = 4
steps_left reading n = 4
steps_left draining n = 3 + n
steps_left selecting n = 4 + n
steps_left other n = 0

-- A step of the server's thread brings it nearer to its end, and there is one until then.
server_at-steps_left :
    (pc : Pc) (i : Input) (l : Life) (n : ℕ)
    → l.pc ≡ pc
    → IsStopping l
    → l.caller ≡ stopped
    → steps_left pc l.wakeup ≤ suc n
    → steps_left (or_stay l (server_at pc i l)).pc (or_stay l (server_at pc i l)).wakeup ≤ n
unfolding steps_left
server_at-steps_left listening quiet l n e s c h = ground arith
server_at-steps_left listening arrives l n e s c h = ground arith
server_at-steps_left listening fails l n e s c h = ground arith
server_at-steps_left accepting quiet l n e s c h = ground arith
server_at-steps_left accepting arrives l n e s c h = ground arith
server_at-steps_left accepting fails l n e s c h = ground arith
server_at-steps_left reading quiet l n e s c h = ground arith
server_at-steps_left reading arrives l n e s c h = ground arith
server_at-steps_left reading fails l n e s c h = ground arith
server_at-steps_left selecting i l n e s c h = ground arith
server_at-steps_left other i l n e s c h = ground arith

or_stay-IsStopping :
    (l : Life) (o : Option Life)
    → ((m : Life) → o ≡ some m → IsStopping m)
    → IsStopping l
    → IsStopping (or_stay l o)
or_stay-IsStopping l none h s = s
or_stay-IsStopping l (some m) h s = h m refl

same_caller : (pc : Pc) (i : Input) (l : Life) → (or_stay l (server_at pc i l)).caller ≡ l.caller
same_caller listening quiet l = refl
same_caller listening arrives l = refl
same_caller listening fails l = refl
same_caller accepting quiet l = ground arith
same_caller accepting arrives l = refl
same_caller accepting fails l = refl
same_caller reading quiet l = ground arith
same_caller reading arrives l = refl
same_caller reading fails l = refl
same_caller selecting quiet l = ground arith
same_caller selecting arrives l = ground arith
same_caller selecting fails l = ground arith
same_caller other i l = ground arith

none_left :
    (pc : Pc) (l : Life) → l.pc ≡ pc → IsStopping l → steps_left pc l.wakeup ≤ 0 → pc ≡ ended
unfolding steps_left
none_left ended l e s h = refl
none_left unborn l e s h = ground arith
none_left testing l e s h = ground arith
none_left setting l e s h = ground arith
none_left other l e s h = absurd (omega arith)

serve-ended :
    (is : List Input) (l : Life)
    → IsStopping l
    → l.caller ≡ stopped
    → steps_left l.pc l.wakeup ≤ length is
    → (serve is l).pc ≡ ended
unfolding server_step
serve-ended [] l s c h = none_left l.pc l refl s h
serve-ended (i ∷ is) l s c h =
    serve-ended is (or_stay l (server_step i l))
      (or_stay-IsStopping l (server_step i l) (λ m q. server_at-IsStopping l.pc i l m refl q s) s)
      (same_caller l.pc i l ∙ c) (server_at-steps_left l.pc i l (length is) refl s c h)

-- A server with both timeouts runs, past the test of the flag at the start of `run`, when `stop` is
-- called, and both threads take steps in any order until `stop` has returned: then the flag is
-- clear, and the server's thread ends within `steps_left` steps of its own, whatever arrives or
-- fails in them.
pub stop_ends :
    (l m : Life) (is : List Input)
    → IsRunning l
    → Reach l m
    → m.caller ≡ stopped
    → steps_left m.pc m.wakeup ≤ length is
    → (m.is_alive ≡ false) × ((serve is m).pc ≡ ended)
stop_ends l m is r way c h = elim (Reach-from r way) [
  | inl before ↦ cc (sym before.caller ∙ c)
  | inr s ↦ (s.off, serve-ended is m s c h)
]

-- `stop` came before the test of the flag, which sets it again.
record IsLost (l : Life) : Type 0 where
  told : (l.caller ≡ cleared) ⊎ (l.caller ≡ stopped)
  not_closing : l.pc ≢ closing
  not_ended : l.pc ≢ ended
  born : l.pc ≢ unborn
  set : l.is_alive ≡ false → (l.pc ≡ testing) ⊎ (l.pc ≡ setting)

server_at-IsLost :
    (pc : Pc) (i : Input) (l : Life) → l.pc ≡ pc → IsLost l → IsLost (or_stay l (server_at pc i l))
server_at-IsLost listening quiet l e s = ground arith
server_at-IsLost listening arrives l e s = ground arith
server_at-IsLost listening fails l e s = ground arith
server_at-IsLost accepting quiet l e s = ground arith
server_at-IsLost accepting arrives l e s = ground arith
server_at-IsLost accepting fails l e s = ground arith
server_at-IsLost reading quiet l e s = ground arith
server_at-IsLost reading arrives l e s = ground arith
server_at-IsLost reading fails l e s = ground arith
server_at-IsLost selecting quiet l e s = ground arith
server_at-IsLost selecting arrives l e s = ground arith
server_at-IsLost selecting fails l e s = ground arith
server_at-IsLost other i l e s = ground arith

caller_at-IsLost : (l m : Life) → caller_at l.caller l ≡ some m → IsLost l → IsLost m
caller_at-IsLost l m q s = ground arith

Step-IsLost : {l m : Life} → Step l m → IsLost l → IsLost m
unfolding caller_step server_step
Step-IsLost {l} {m} (call q) s = caller_at-IsLost l m q s
Step-IsLost {l} {m} (work i q) s =
    subst (λ o. IsLost (or_stay l o)) q (server_at-IsLost l.pc i l refl s)

Reach-IsLost : {l m : Life} → Reach l m → IsLost l → IsLost m
Reach-IsLost here s = s
Reach-IsLost (later way step) s = Step-IsLost step (Reach-IsLost way s)

serve-IsLost : (is : List Input) (l : Life) → IsLost l → IsLost (serve is l)
unfolding server_step
serve-IsLost [] l s = s
serve-IsLost (i ∷ is) l s = serve-IsLost is _ (server_at-IsLost l.pc i l refl s)

-- `start` has returned, but `run` has not tested the flag yet, when `stop` clears it, and both
-- threads take steps in any order from there on, past the return of `stop` or not: the server's
-- thread has not ended, and does not end by any steps of its own, whatever arrives or fails.
pub stop_undone :
    (l m n : Life) (is : List Input)
    → l.caller ≡ running
    → l.pc ≡ testing
    → caller_step l ≡ some m
    → Reach m n
    → (serve is n).pc ≢ ended
unfolding caller_step
stop_undone l m n is c e clears way =
    let lost : IsLost m = ground arith in (serve-IsLost is n (Reach-IsLost way lost)).not_ended
