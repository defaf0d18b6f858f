-- ===== src/ServerFactory/Handover/Accepted.antt =====
-- A connection that arrives at a listening `ServerFactory`.
use mathlib.Core.Path.{subst}
use python_json_socket.Prelude.{
  ℕ, ◌≡◌, ◌≢◌, sym, ap, ◌∙◌, true, false, Option, none, some, Text, arith, ==_iff, ==_refl,
}
use python_json_socket.Os.{Sock}
use python_json_socket.JsonSocket.{State, JsonSocket, Result, ok, raise}
use python_json_socket.JsonSocket.Init.{or_timeout}
use python_json_socket.JsonServer.{accept_connection, accepted, reset_connection_ref, listen}
use python_json_socket.JsonServer.Synced.{IsBound, IsSynced, accept_connection-IsSynced}
use python_json_socket.Serving.{Server}
use python_json_socket.ThreadedServer.{readable, wait_for_accept}
use python_json_socket.ServerFactory.Handover.{
  Attempt, hand_over, accepted_by, after_wait, accept_one,
}
use python_json_socket.ServerFactory.Handover.Outcome.{HandOutcome, hand_over_outcome}

-- The factory listens on `k` as before, and has no connection, so that it can accept again.
pub record Listens (k : ℕ) (s after : State) : Type 0 where
  pub same_main : after.os k ≡ s.os k
  pub main : after.self.socket ≡ some k
  pub no_conn : after.self.conn ≡ some k

-- A connection `h` that arrived at the factory.
abbrev pub AcceptOutcome : ℕ → ℕ → State → Option Server × State → Type 0
AcceptOutcome k h s (some w, after) =
    Listens k s after
    × (w.sock.self.socket ≡ some h)
    × (w.sock.self.conn ≡ some h)
    × ((after.os h).is_open ≡ true)
    × ((after.os h).timeout ≡ or_timeout w.sock.self.recv_timeout after.self.recv_timeout)
AcceptOutcome k h s (none, after) = Listens k s after × ((after.os h).is_open ≡ false)

waited-IsBound :
    (k : ℕ) (s : State)
    → IsBound k s
    → ((wait_for_accept readable s).0 ≡ true)
      × IsBound k (wait_for_accept readable s).1
      × ((wait_for_accept readable s).1.os ≡ s.os)
      × ((wait_for_accept readable s).1.next ≡ s.next)
unfolding wait_for_accept listen
waited-IsBound k s b = ground arith

accepted_main :
    (addr : Text × ℕ) (sock : Sock) (k : ℕ) (s : State)
    → IsBound k s
    → (accept_connection (accepted addr sock) s).1.os k ≡ s.os k
unfolding accept_connection
accepted_main addr sock k s b =
    ground (arith, ==_refl k, ==_refl s.next, ==_iff k s.next, ==_iff s.next k)

-- The state in which the connection is handed over.
abbrev reset : State → State
reset s = record s { self = record s.self { conn = s.self.socket } }

after-Listens :
    (k h : ℕ) (s q after : State)
    → IsSynced k h q
    → q.os k ≡ s.os k
    → after.self ≡ (reset q).self
    → ((i : ℕ) → h ≢ i → after.os i ≡ q.os i)
    → Listens k s after
after-Listens k h s q after y same self others = record {
  same_main = others k (λ e. y.apart (sym e)) ∙ same;
  main = ap (λ (o : JsonSocket). o.socket) self ∙ y.main;
  no_conn = ap (λ (o : JsonSocket). o.conn) self ∙ y.main;
}

handed_outcome :
    (k h : ℕ) (s q : State) (r : Option Server × State)
    → IsSynced k h q
    → q.os k ≡ s.os k
    → HandOutcome h (reset q) r
    → AcceptOutcome k h s r
handed_outcome k h s q (some w, after) y same g = (
  after-Listens k h s q after y same g.same_self g.others,
  g.is_main,
  g.is_conn,
  g.is_open,
  g.timed
      ∙ ap (or_timeout w.sock.self.recv_timeout)
          (y.recv ∙ sym (ap (λ (o : JsonSocket). o.recv_timeout) g.same_self)),
)
handed_outcome k h s q (none, after) y same g =
    (after-Listens k h s q after y same g.same_self g.others, g.is_shut)

accepted_outcome :
    (a : Attempt) (k h : ℕ) (s : State) (r : Result (Unit {0}) × State)
    → r.0 ≡ ok tt
    → IsSynced k h r.1
    → r.1.os k ≡ s.os k
    → a.thread_args.create_socket ≡ false
    → AcceptOutcome k h s (accepted_by a r)
unfolding reset_connection_ref
accepted_outcome a k h s (ok done, q) returned y same plain = rw y.conn (
    handed_outcome k h s q (hand_over a h (reset q)) y same
      (hand_over_outcome a h (reset q) y.open_conn plain))
accepted_outcome a k h s (raise e, q) returned y same plain = cc

-- A connection arrives at a factory that listens, whose workers create no socket of their own.
-- Whatever goes wrong (the factory is being stopped, the worker cannot be constructed, its thread
-- does not start): either the connection is open, has the worker's receive timeout or else the
-- factory's, and is both the socket and the connection of the worker that is returned; or no worker
-- is, and the connection is closed. In both cases the listening socket is as before, and the factory
-- has no connection, so that it can accept the next one.
pub accept_one_outcome :
    (a : Attempt) (addr : Text × ℕ) (sock : Sock) (k : ℕ) (s : State)
    → IsBound k s
    → sock.is_open ≡ true
    → a.wait ≡ readable
    → a.event ≡ accepted addr sock
    → a.thread_args.create_socket ≡ false
    → AcceptOutcome k s.next s (accept_one a s)
unfolding accept_one
accept_one_outcome a addr sock k s b up waits arrives plain =
    let (returned, bound, same_os, same_next) = waited-IsBound k s b in
    let t = (wait_for_accept readable s).1 in
    let (accepts, synced) = accept_connection-IsSynced addr sock k t bound up in
    let same = accepted_main addr sock k t bound ∙ ap (λ (f : ℕ → Sock). f k) same_os in
    subst (λ (n : ℕ). AcceptOutcome k n s (accept_one a s)) same_next
      (subst (AcceptOutcome k t.next s)
        (sym (
          ap (λ w. after_wait a (wait_for_accept w s)) waits
          ∙ ap (λ b. after_wait a (b, t)) returned
          ∙ ap (λ e. accepted_by a (accept_connection e t)) arrives))
        (accepted_outcome a k t.next s (accept_connection (accepted addr sock) t) accepts synced
          same plain))
