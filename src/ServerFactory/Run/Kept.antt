-- ===== src/ServerFactory/Run/Kept.antt =====
-- A `ServerFactory` goes on listening, and every connection that it accepts belongs to a worker or is
-- closed.
use python_json_socket.Prelude.{
  ℕ, ◌≡◌, ◌≢◌, refl, sym, ap, ◌∙◌, true, false, Option, none, some, Text, arith, ==_iff, ==_refl,
  ◌==◌, Bool-cases, inl, inr, ◌⊎◌,
}
use python_json_socket.Os.{Sock}
use python_json_socket.JsonSocket.{State, JsonSocket, Result, ok, raise}
use python_json_socket.JsonServer.{
  Accept, accepted, timed_out, refused, accept_connection, listen, reset_connection_ref,
}
use python_json_socket.JsonServer.Synced.{IsBound, IsSynced}
use python_json_socket.Serving.{Server}
use python_json_socket.ThreadedServer.{Wait, readable, woken, no_wakeup, wait_for_accept}
use python_json_socket.ServerFactory.Handover.{Attempt, hand_over, accepted_by}
use python_json_socket.ServerFactory.Handover.Outcome.{HandOutcome, hand_over_outcome}

-- The factory listens on `k` and has no connection.
pub record IsListening (k : ℕ) (s : State) : Type 0 where
  pub bound : IsBound k s
  pub open bound use *
  pub no_conn : s.self.conn ≡ some k

-- The same sockets, by the same references.
pub record SameSockets (s after : State) : Type 0 where
  pub same_os : after.os ≡ s.os
  pub same_next : after.next ≡ s.next

pub waited :
    (w : Wait) (k : ℕ) (s : State)
    → IsListening k s
    → IsListening k (wait_for_accept w s).1 × SameSockets s (wait_for_accept w s).1
unfolding wait_for_accept listen
waited readable k s l = ground arith
waited woken k s l = ground arith
waited no_wakeup k s l = ground arith

pub accept_raises :
    (event : Accept) (k : ℕ) (s : State)
    → ((addr : Text × ℕ) (sock : Sock) → event ≢ accepted addr sock)
    → IsListening k s
    → IsListening k (accept_connection event s).1 × SameSockets s (accept_connection event s).1
unfolding accept_connection
accept_raises (accepted addr sock) k s n l = absurd (n addr sock refl)
accept_raises timed_out k s n l = ground arith
accept_raises refused k s n l = ground arith

pub accepted_others :
    (addr : Text × ℕ) (sock : Sock) (k : ℕ) (s : State) (i : ℕ)
    → IsListening k s
    → s.next ≢ i
    → (accept_connection (accepted addr sock) s).1.os i ≡ s.os i
unfolding accept_connection
accepted_others addr sock k s i l n = ground (arith, ==_refl s.next, ==_iff s.next i)

-- What a pass of the inner loop opens is the connection of the worker that it spawns.
abbrev pub AttemptOutcome : ℕ → State → Option Server × State → Type 0
AttemptOutcome k s (none, after) =
    IsListening k after × ((i : ℕ) → (after.os i).is_open ≡ true → (s.os i).is_open ≡ true)
AttemptOutcome k s (some w, after) =
    IsListening k after
    × ((i : ℕ)
        → (after.os i).is_open ≡ true
        → ((s.os i).is_open ≡ true) ⊎ (w.sock.self.conn ≡ some i))

still_listening :
    (k h : ℕ) (q after : State)
    → IsSynced k h q
    → after.self ≡ record q.self { conn = q.self.socket }
    → after.next ≡ q.next
    → ((i : ℕ) → h ≢ i → after.os i ≡ q.os i)
    → IsListening k after
still_listening k h q after y self next others =
    let same = others k (λ e. y.apart (sym e)) in
    record {
      bound = record {
        server = ap (λ (o : JsonSocket). o.is_server) self ∙ y.server;
        main = ap (λ (o : JsonSocket). o.socket) self ∙ y.main;
        open_main = ap (λ (x : Sock). x.is_open) same ∙ y.open_main;
        accept =
            ap (λ (x : Sock). x.timeout) same
            ∙ y.accept
            ∙ sym (ap (λ (o : JsonSocket). o.accept_timeout) self);
        free = omega (arith, next, y.free);
      };
      no_conn = ap (λ (o : JsonSocket). o.conn) self ∙ y.main;
    }

still_open :
    (s q after : State) (h i : ℕ)
    → ((j : ℕ) → h ≢ j → after.os j ≡ q.os j)
    → ((j : ℕ) → h ≢ j → q.os j ≡ s.os j)
    → h ≢ i
    → (after.os i).is_open ≡ true
    → (s.os i).is_open ≡ true
still_open s q after h i others before apart up =
    ap (λ (x : Sock). x.is_open) (sym (before i apart) ∙ sym (others i apart)) ∙ up

handed :
    (k h : ℕ) (s q : State) (r : Option Server × State)
    → IsSynced k h q
    → ((i : ℕ) → h ≢ i → q.os i ≡ s.os i)
    → HandOutcome h (record q { self = record q.self { conn = q.self.socket } }) r
    → AttemptOutcome k s r
handed k h s q (some w, after) y before g = (
  still_listening k h q after y g.same_self g.same_next g.others,
  λ i up. elim (Bool-cases (h == i)) [
    | inl same ↦ inr (g.is_conn ∙ ap some ((==_iff h i).0 same))
    | inr other ↦
        inl (still_open s q after h i g.others before (λ e. cc (sym other ∙ (==_iff h i).1 e)) up)
  ],
)
handed k h s q (none, after) y before g = (
  still_listening k h q after y g.same_self g.same_next g.others,
  λ i up. elim (Bool-cases (h == i)) [
    | inl same ↦
        absurd (cc (sym g.is_shut ∙ ap (λ j. (after.os j).is_open) ((==_iff h i).0 same) ∙ up))
    | inr other ↦
        still_open s q after h i g.others before (λ e. cc (sym other ∙ (==_iff h i).1 e)) up
  ],
)

-- A connection that arrives is open.
abbrev pub IsUp : Accept → Type 0
IsUp (accepted addr sock) = sock.is_open ≡ true
IsUp other = Unit

pub not_accepted :
    (a : Attempt) (k : ℕ) (s : State) (r : Result (Unit {0}) × State)
    → r.0 ≢ ok tt
    → IsListening k r.1
    → SameSockets s r.1
    → AttemptOutcome k s (accepted_by a r)
not_accepted a k s (ok done, t) n l same = absurd (n refl)
not_accepted a k s (raise e, t) n l same =
    (l, λ i up. ap (λ (f : ℕ → Sock). (f i).is_open) (sym same.same_os) ∙ up)

pub was_accepted :
    (a : Attempt) (k : ℕ) (s : State) (r : Result (Unit {0}) × State)
    → r.0 ≡ ok tt
    → IsSynced k s.next r.1
    → ((i : ℕ) → s.next ≢ i → r.1.os i ≡ s.os i)
    → a.thread_args.create_socket ≡ false
    → AttemptOutcome k s (accepted_by a r)
unfolding reset_connection_ref
was_accepted a k s (raise e, q) returned y before plain = cc
was_accepted a k s (ok done, q) returned y before plain = rw y.conn (
    handed k s.next s q
      (hand_over a s.next (record q { self = record q.self { conn = q.self.socket } })) y before
      (hand_over_outcome a s.next (record q { self = record q.self { conn = q.self.socket } })
        y.open_conn plain))
