-- ===== src/ThreadedServer/Lifecycle/Stopped.antt =====
-- What `stop` does to a server that runs: from its call on, and where it comes too early.
use python_json_socket.Prelude.{◌<◌, ◌≡◌, ◌≢◌, refl, ◌⊎◌, inl, inr, false, none, some, arith}
use python_json_socket.ThreadedServer.Lifecycle.{
  Caller, fresh, marked, running, cleared, stopped, Pc, unborn, testing, setting, listening,
  selecting, accepting, reading, Life, Input, quiet, arrives, fails, caller_at, caller_step,
  server_at, server_step, Step, call, work, Reach, here, later,
}

-- `run` has tested the flag, and found or set it.
abbrev pub IsPast : Pc → Type 0
IsPast unborn = ⊥
IsPast testing = ⊥
IsPast setting = ⊥
IsPast other = Unit

-- Both timeouts are set, so that no `accept` and no `recv` blocks for ever.
pub record IsTimed (l : Life) : Type 0 where
  pub accepts : l.accept_timeout ≢ none
  pub reads : l.recv_timeout ≢ none

-- A server in the midst of `run`, before and after `stop`.
pub record IsRunning (l : Life) : Type 0 where
  pub caller : l.caller ≡ running
  pub past : IsPast l.pc
  pub timed : IsTimed l

-- The flag is clear, and where the server's thread waits after `stop`, a wakeup is there.
pub record IsStopping (l : Life) : Type 0 where
  pub off : l.is_alive ≡ false
  pub past : IsPast l.pc
  pub woken : (l.caller ≡ cleared) ⊎ ((l.caller ≡ stopped) × (l.pc ≡ selecting → 0 < l.wakeup))
  pub timed : IsTimed l

caller_at-IsStopping :
    (c : Caller) (l m : Life) → l.caller ≡ c → caller_at c l ≡ some m → IsStopping l → IsStopping m
caller_at-IsStopping fresh l m e q s = ground arith
caller_at-IsStopping marked l m e q s = ground arith
caller_at-IsStopping running l m e q s = ground arith
caller_at-IsStopping cleared l m e q s = ground arith
caller_at-IsStopping stopped l m e q s = ground arith

pub server_at-IsStopping :
    (pc : Pc) (i : Input) (l m : Life)
    → l.pc ≡ pc
    → server_at pc i l ≡ some m
    → IsStopping l
    → IsStopping m
server_at-IsStopping listening quiet l m e q s = ground arith
server_at-IsStopping listening arrives l m e q s = ground arith
server_at-IsStopping listening fails l m e q s = ground arith
server_at-IsStopping accepting quiet l m e q s = ground arith
server_at-IsStopping accepting arrives l m e q s = ground arith
server_at-IsStopping accepting fails l m e q s = ground arith
server_at-IsStopping reading quiet l m e q s = ground arith
server_at-IsStopping reading arrives l m e q s = ground arith
server_at-IsStopping reading fails l m e q s = ground arith
server_at-IsStopping other i l m e q s = ground arith

pub Step-IsStopping : {l m : Life} → Step l m → IsStopping l → IsStopping m
unfolding caller_step server_step
Step-IsStopping {l} {m} (call q) s = caller_at-IsStopping l.caller l m refl q s
Step-IsStopping {l} {m} (work i q) s = server_at-IsStopping l.pc i l m refl q s

-- Before `stop` the server goes on in `run`; the call of `stop` begins with the flag.
caller_at-from_running : (l m : Life) → IsRunning l → caller_at l.caller l ≡ some m → IsStopping m
caller_at-from_running l m r q = ground arith

server_at-IsRunning :
    (pc : Pc) (i : Input) (l m : Life)
    → l.pc ≡ pc
    → server_at pc i l ≡ some m
    → IsRunning l
    → IsRunning m
server_at-IsRunning listening quiet l m e q r = ground arith
server_at-IsRunning listening arrives l m e q r = ground arith
server_at-IsRunning listening fails l m e q r = ground arith
server_at-IsRunning accepting quiet l m e q r = ground arith
server_at-IsRunning accepting arrives l m e q r = ground arith
server_at-IsRunning accepting fails l m e q r = ground arith
server_at-IsRunning reading quiet l m e q r = ground arith
server_at-IsRunning reading arrives l m e q r = ground arith
server_at-IsRunning reading fails l m e q r = ground arith
server_at-IsRunning selecting quiet l m e q r = ground arith
server_at-IsRunning selecting arrives l m e q r = ground arith
server_at-IsRunning selecting fails l m e q r = ground arith
server_at-IsRunning other i l m e q r = ground arith

Step-from : {l m : Life} → Step l m → IsRunning l → IsRunning m ⊎ IsStopping m
unfolding caller_step server_step
Step-from {l} {m} (call q) r = inr (caller_at-from_running l m r q)
Step-from {l} {m} (work i q) r = inl (server_at-IsRunning l.pc i l m refl q r)

pub Reach-from : {l m : Life} → IsRunning l → Reach l m → IsRunning m ⊎ IsStopping m
Reach-from r here = inl r
Reach-from r (later way step) = elim (Reach-from r way) [
  | inl before ↦ Step-from step before
  | inr after ↦ inr (Step-IsStopping step after)
]
