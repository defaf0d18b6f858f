-- ===== src/ServerFactory/Handover/Outcome.antt =====
-- An accepted connection belongs to a worker or is closed, and the factory can accept again.
use python_json_socket.Prelude.{
  ℕ, ◌==◌, ◌≡◌, ◌≢◌, refl, sym, ap, ◌∙◌, Bool, true, false, Option, none, some, Text, arith, ==_iff,
  ==_refl, Bool-cases, inl, inr,
}
use python_json_socket.Os.{Sock}
use python_json_socket.JsonSocket.{State, JsonSocket, Result, ok, raise, settimeout}
use python_json_socket.JsonSocket.Init.{Args, init, or_timeout}
use python_json_socket.JsonSocket.Timeouts.{set_max_message_size}
use python_json_socket.Stats.{Now}
use python_json_socket.Serving.{Server}
use python_json_socket.ServerFactoryThread.{new_tracker, swap_socket, try_settimeout, drop_existing}
use python_json_socket.ServerFactory.Handover.{
  Attempt, give_up, share, started, constructed, or_give_up, hand_over,
}

-- The constructor of a worker creates no socket and touches none.
record Untouched (s : State) (r : Result (Unit {0}) × State) : Type 0 where
  same_os : r.1.os ≡ s.os
  same_next : r.1.next ≡ s.next
  no_socket : r.1.self.socket ≡ none

init-Untouched : (args : Args) (s : State) → args.create_socket ≡ false → Untouched s (init args s)
unfolding init set_max_message_size
init-Untouched args s h = ground arith

-- The timeout of socket `h` is the object's receive timeout, if it has one; no other socket changes.
record Timed (h : ℕ) (t : Option ℕ) (s after : State) : Type 0 where
  same_self : after.self ≡ s.self
  same_next : after.next ≡ s.next
  is_open : (after.os h).is_open ≡ true
  timed : (after.os h).timeout ≡ or_timeout t (s.os h).timeout
  others : (i : ℕ) → h ≢ i → after.os i ≡ s.os i

try_settimeout-Timed :
    (h : ℕ) (t : Option ℕ) (s : State)
    → (s.os h).is_open ≡ true
    → Timed h t s (try_settimeout h t s)
unfolding settimeout
try_settimeout-Timed h none s up = record {
  same_self = refl;
  same_next = refl;
  is_open = up;
  timed = refl;
  others = λ i d. refl;
}
try_settimeout-Timed h (some t) s up = ground (arith, ==_refl h, ==_iff h)

-- What a worker has been given: the connection `h`.
record Given (h : ℕ) (s : State) (w : Server) : Type 0 where
  is_main : w.sock.self.socket ≡ some h
  is_conn : w.sock.self.conn ≡ some h
  is_open : (w.sock.os h).is_open ≡ true
  timed : (w.sock.os h).timeout ≡ or_timeout w.sock.self.recv_timeout (s.os h).timeout
  same_next : w.sock.next ≡ s.next
  others : (i : ℕ) → h ≢ i → w.sock.os i ≡ s.os i

attach : ℕ → State → State
attach h s = record s { self = record s.self { socket = some h; conn = some h } }

swap_socket-attach :
    (h : ℕ) (peer : Option (Text × ℕ)) (now : Now) (worker : State)
    → worker.self.socket ≡ none
    → (swap_socket h peer now (record { sock = worker; stats = new_tracker })).sock
      ≡ try_settimeout h worker.self.recv_timeout (attach h worker)
unfolding swap_socket attach
swap_socket-attach h peer now worker fresh =
    ap (λ o. let s = drop_existing o h worker in try_settimeout h s.self.recv_timeout (attach h s))
      fresh

swap_socket-Given :
    (h : ℕ) (peer : Option (Text × ℕ)) (now : Now) (worker : State)
    → worker.self.socket ≡ none
    → (worker.os h).is_open ≡ true
    → Given h worker (swap_socket h peer now (record { sock = worker; stats = new_tracker }))
unfolding attach
swap_socket-Given h peer now worker fresh up =
    let e = swap_socket-attach h peer now worker fresh in
    let t = try_settimeout-Timed h worker.self.recv_timeout (attach h worker) up in
    let same = ap (λ (s : State). s.self) e ∙ t.same_self in
    let os = ap (λ (s : State). s.os) e in
    record {
      is_main = ap (λ (o : JsonSocket). o.socket) same;
      is_conn = ap (λ (o : JsonSocket). o.conn) same;
      is_open = ap (λ (f : ℕ → Sock). (f h).is_open) os ∙ t.is_open;
      timed =
          ap (λ (f : ℕ → Sock). (f h).timeout) os
          ∙ t.timed
          ∙ ap (λ (o : JsonSocket). or_timeout o.recv_timeout (worker.os h).timeout) (sym same);
      same_next = ap (λ (s : State). s.next) e ∙ t.same_next;
      others = λ i d. ap (λ (f : ℕ → Sock). f i) os ∙ t.others i d;
    }

-- The connection `h` is open and belongs to the worker.
pub record Handed (h : ℕ) (s : State) (w : Server) (after : State) : Type 0 where
  pub is_main : w.sock.self.socket ≡ some h
  pub is_conn : w.sock.self.conn ≡ some h
  pub is_open : (after.os h).is_open ≡ true
  pub timed : (after.os h).timeout ≡ or_timeout w.sock.self.recv_timeout (s.os h).timeout
  pub same_self : after.self ≡ s.self
  pub same_next : after.next ≡ s.next
  pub others : (i : ℕ) → h ≢ i → after.os i ≡ s.os i

-- The connection `h` is closed.
pub record Dropped (h : ℕ) (s after : State) : Type 0 where
  pub is_shut : (after.os h).is_open ≡ false
  pub same_self : after.self ≡ s.self
  pub same_next : after.next ≡ s.next
  pub others : (i : ℕ) → h ≢ i → after.os i ≡ s.os i

abbrev pub HandOutcome : ℕ → State → Option Server × State → Type 0
HandOutcome h s (some w, after) = Handed h s w after
HandOutcome h s (none, after) = Dropped h s after

give_up-Dropped :
    (h : ℕ) (s t : State)
    → t.self ≡ s.self
    → t.next ≡ s.next
    → ((i : ℕ) → h ≢ i → t.os i ≡ s.os i)
    → Dropped h s (give_up h t)
give_up-Dropped h s t same next others = record {
  is_shut = rw (==_refl h) refl;
  same_self = same;
  same_next = next;
  others = λ i d. elim (Bool-cases (h == i)) [
    | inl equal ↦ absurd (d ((==_iff h i).0 equal))
    | inr differ ↦ rw differ (others i d)
  ];
}

started_outcome :
    (starts : Bool) (h : ℕ) (s worker : State) (w : Server)
    → worker.os ≡ s.os
    → worker.next ≡ s.next
    → Given h worker w
    → HandOutcome h s (or_give_up h (started starts s w))
started_outcome true h s worker w same next g = record {
  is_main = g.is_main;
  is_conn = g.is_conn;
  is_open = g.is_open;
  timed = g.timed ∙ ap (λ (f : ℕ → Sock). or_timeout w.sock.self.recv_timeout (f h).timeout) same;
  same_self = refl;
  same_next = g.same_next ∙ next;
  others = λ i d. g.others i d ∙ ap (λ (f : ℕ → Sock). f i) same;
}
started_outcome false h s worker w same next g =
    give_up-Dropped h s (share s w.sock) refl (g.same_next ∙ next)
      (λ i d. g.others i d ∙ ap (λ (f : ℕ → Sock). f i) same)

constructed_outcome :
    (a : Attempt) (h : ℕ) (s : State) (r : Result (Unit {0}) × State)
    → (s.os h).is_open ≡ true
    → Untouched s r
    → HandOutcome h s (or_give_up h (constructed a h s r))
constructed_outcome a h s (raise e, worker) up u =
    give_up-Dropped h s (share s worker) refl u.same_next
      (λ i d. ap (λ (f : ℕ → Sock). f i) u.same_os)
constructed_outcome a h s (ok done, worker) up u =
    started_outcome a.starts h s worker _ u.same_os u.same_next (
      swap_socket-Given h a.peer a.now worker u.no_socket
        (ap (λ (f : ℕ → Sock). (f h).is_open) u.same_os ∙ up))

pub hand_over_outcome :
    (a : Attempt) (h : ℕ) (s : State)
    → (s.os h).is_open ≡ true
    → a.thread_args.create_socket ≡ false
    → HandOutcome h s (hand_over a h s)
unfolding hand_over
hand_over_outcome a h s up plain = elim (Bool-cases a.is_alive) [
  | inl alive ↦
      rw alive
        (constructed_outcome a h s (init a.thread_args s) up (init-Untouched a.thread_args s plain))
  | inr stopping ↦ rw stopping (give_up-Dropped h s s refl refl (λ i d. refl))
]
