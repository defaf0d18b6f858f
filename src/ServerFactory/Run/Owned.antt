-- ===== src/ServerFactory/Run/Owned.antt =====
-- `ServerFactory.run` leaves no connection behind: it owns its listening socket alone, and every
-- connection that it accepted belongs to a worker or is closed.
use python_json_socket.Prelude.{
  ℕ, ◌≡◌, ◌≢◌, refl, sym, ap, ◌∙◌, Bool, true, false, List, [], ◌∷◌, ◌++◌, Option, none, some, Text,
  arith, Bool-cases, inl, inr, ◌⊎◌,
}
use python_json_socket.Os.{Sock}
use python_json_socket.JsonSocket.{State, ok}
use python_json_socket.JsonServer.{
  Accept, accepted, timed_out, refused, accept_connection, is_connected,
}
use python_json_socket.JsonServer.Synced.{accept_connection-IsSynced}
use python_json_socket.Serving.{Server}
use python_json_socket.ThreadedServer.{wait_for_accept}
use python_json_socket.ServerFactory.Handover.{Attempt, accepted_by, after_wait, accept_one}
use python_json_socket.ServerFactory.Run.{Operation, attempted, accept_loop, Pass, run_passes}
use python_json_socket.ServerFactory.Run.Kept.{
  IsListening, SameSockets, AttemptOutcome, IsUp, waited, accept_raises, accepted_others,
  not_accepted, was_accepted,
}

raises :
    (event : Accept) (s : State)
    → ((addr : Text × ℕ) (sock : Sock) → event ≢ accepted addr sock)
    → (accept_connection event s).0 ≢ ok tt
unfolding accept_connection
raises (accepted addr sock) s n = absurd (n addr sock refl)
raises timed_out s n = ground arith
raises refused s n = ground arith

event_outcome :
    (a : Attempt) (k : ℕ) (s : State) (event : Accept)
    → IsUp event
    → a.thread_args.create_socket ≡ false
    → IsListening k s
    → AttemptOutcome k s (accepted_by a (accept_connection event s))
event_outcome a k s (accepted addr sock) up plain l =
    let (returned, synced) = accept_connection-IsSynced addr sock k s l.bound up in
    was_accepted a k s (accept_connection (accepted addr sock) s) returned synced
      (λ i n. accepted_others addr sock k s i l n) plain
event_outcome a k s timed_out up plain l =
    let (still, same) = accept_raises timed_out k s (λ addr sock e. cc) l in
    not_accepted a k s (accept_connection timed_out s) (raises timed_out s (λ addr sock e. cc))
      still same
event_outcome a k s refused up plain l =
    let (still, same) = accept_raises refused k s (λ addr sock e. cc) l in
    not_accepted a k s (accept_connection refused s) (raises refused s (λ addr sock e. cc)) still
      same

same_before :
    (k : ℕ) (s t : State) (r : Option Server × State)
    → t.os ≡ s.os
    → AttemptOutcome k t r
    → AttemptOutcome k s r
same_before k s t (none, after) same (l, opens) =
    (l, λ i up. ap (λ (f : ℕ → Sock). (f i).is_open) (sym same) ∙ opens i up)
same_before k s t (some w, after) same (l, opens) = (
  l,
  λ i up. elim (opens i up) [
    | inl before ↦ inl (ap (λ (f : ℕ → Sock). (f i).is_open) (sym same) ∙ before)
    | inr its ↦ inr its
  ],
)

-- The constructor of a worker creates no socket, and a connection that arrives is open.
pub record IsPlain (a : Attempt) : Type 0 where
  pub creates_none : a.thread_args.create_socket ≡ false
  pub arrives_open : IsUp a.event

after_wait_outcome :
    (a : Attempt) (k : ℕ) (s : State) (r : Bool × State)
    → IsPlain a
    → IsListening k r.1
    → SameSockets s r.1
    → AttemptOutcome k s (after_wait a r)
after_wait_outcome a k s (false, t) plain l same =
    (l, λ i up. ap (λ (f : ℕ → Sock). (f i).is_open) (sym same.same_os) ∙ up)
after_wait_outcome a k s (true, t) plain l same =
    same_before k s t (accepted_by a (accept_connection a.event t)) same.same_os
      (event_outcome a k t a.event plain.arrives_open plain.creates_none l)

attempt_outcome :
    (a : Attempt) (k : ℕ) (s : State)
    → IsPlain a
    → IsListening k s
    → AttemptOutcome k s (accept_one a s)
unfolding accept_one
attempt_outcome a k s plain l =
    let (still, same) = waited a.wait k s l in
    after_wait_outcome a k s (wait_for_accept a.wait s) plain still same

-- Socket `i` is the connection of one of the workers.
abbrev pub Owns : ℕ → List Server → Type 0
Owns i [] = ⊥
Owns i (w ∷ ws) = (w.sock.self.conn ≡ some i) ⊎ Owns i ws

Owns-append-old : (i : ℕ) (ws : List Server) (w : Server) → Owns i ws → Owns i (ws ++ (w ∷ []))
Owns-append-old i [] w o = absurd o
Owns-append-old i (v ∷ ws) w (inl its) = inl its
Owns-append-old i (v ∷ ws) w (inr more) = inr (Owns-append-old i ws w more)

Owns-append-new :
    (i : ℕ) (ws : List Server) (w : Server) → w.sock.self.conn ≡ some i → Owns i (ws ++ (w ∷ []))
Owns-append-new i [] w e = inl e
Owns-append-new i (v ∷ ws) w e = inr (Owns-append-new i ws w e)

-- The factory listens, and what is open now and was not at the start is a worker's.
pub record IsTidy (k : ℕ) (start : State) (o : Operation) : Type 0 where
  pub listening : IsListening k o.sock
  pub owned :
      (i : ℕ) → (o.sock.os i).is_open ≡ true → ((start.os i).is_open ≡ true) ⊎ Owns i o.spawned

attempted-IsTidy :
    (k : ℕ) (start : State) (next : Operation → Operation) (ident : ℕ) (o : Operation)
    (r : Option Server × State)
    → ((p : Operation) → IsTidy k start p → IsTidy k start (next p))
    → IsTidy k start o
    → AttemptOutcome k o.sock r
    → IsTidy k start (attempted next ident o r)
attempted-IsTidy k start next ident o (none, s) go t (l, opens) =
    go (record o { sock = s }) (record { listening = l; owned = λ i up. t.owned i (opens i up) })
attempted-IsTidy k start next ident o (some w, s) go t (l, opens) = record {
  listening = l;
  owned = λ i up. elim (opens i up) [
    | inr its ↦ inr (Owns-append-new i o.spawned w its)
    | inl before ↦ elim (t.owned i before) [
      | inl at_start ↦ inl at_start
      | inr older ↦ inr (Owns-append-old i o.spawned w older)
    ]
  ];
}

abbrev pub ArePlain : List (ℕ × Attempt) → Type 0
ArePlain [] = Unit
ArePlain ((ident, a) ∷ attempts) = IsPlain a × ArePlain attempts

accept_loop-IsTidy :
    (k : ℕ) (start : State) (attempts : List (ℕ × Attempt)) (o : Operation)
    → ArePlain attempts
    → IsTidy k start o
    → IsTidy k start (accept_loop attempts o)
unfolding accept_loop
accept_loop-IsTidy k start [] o plain t = t
accept_loop-IsTidy k start ((ident, a) ∷ attempts) o (one, plain) t =
    elim (Bool-cases (is_connected o.sock)) [
      | inl has ↦ rw has t
      | inr free ↦ rw free (
          attempted-IsTidy k start (accept_loop attempts) ident o (accept_one a o.sock)
            (λ p. accept_loop-IsTidy k start attempts p plain) t
            (attempt_outcome a k o.sock one t.listening))
    ]

abbrev pub ArePlainPasses : List Pass → Type 0
ArePlainPasses [] = Unit
ArePlainPasses (p ∷ passes) = ArePlain p.attempts × ArePlainPasses passes

-- Whatever connections arrive at a factory or fail to, however its waits end, and whatever goes wrong
-- with the workers, whose constructor creates no socket: after any passes of its loops the factory
-- listens on its socket, which is open and has the accept timeout, and is ready to accept; and every
-- socket that is open was open before or is the connection of a worker that it has spawned.
pub run_passes-IsTidy :
    (k : ℕ) (start : State) (passes : List Pass) (o : Operation)
    → ArePlainPasses passes
    → IsTidy k start o
    → IsTidy k start (run_passes passes o)
unfolding run_passes
run_passes-IsTidy k start [] o plain t = t
run_passes-IsTidy k start (p ∷ passes) o (one, plain) t = run_passes-IsTidy k start passes _ plain (
    accept_loop-IsTidy k start p.attempts _ one
      (record { listening = t.listening; owned = t.owned }))
