-- ===== src/JsonClient/Connects.antt =====
-- `JsonClient.connect`: when it succeeds, what it leaves, and how long it sleeps.
use mathlib.Core.Path.{subst}
use python_json_socket.Prelude.{
  ℕ, zero, suc, ◌+◌, ◌*◌, ◌≡◌, refl, sym, ap, ◌∙◌, Bool, true, false, Option, none, some, arith,
  ==_refl, Bool-cases, inl, inr, not, if◌then◌else◌,
}
use python_json_socket.JsonSocket.{State, M, Result, settimeout, ok, bind-ok, pure, ◌>>◌}
use python_json_socket.JsonSocket.Close.{shut_option}
use python_json_socket.JsonClient.{
  recreate_socket, refresh, settimeout_main, sleep_three, connect_loop, connect,
}

abbrev plus_one : Option ℕ → Option ℕ
plus_one none = none
plus_one (some n) = some (n + 1)

-- The failed attempts before the first one that succeeds, of so many from this one on.
abbrev pub failures : (ℕ → Bool) → ℕ → ℕ → Option ℕ
failures reaches attempt zero = none
failures reaches attempt (suc left) =
    if reaches attempt then some 0 else plus_one (failures reaches (attempt + 1) left)

-- The client has an open main socket `k`, and nothing was slept.
record IsReady (k : ℕ) (s after : State) : Type 0 where
  is_main : after.self.socket ≡ some k
  is_open : (after.os k).is_open ≡ true
  same_recv : after.self.recv_timeout ≡ s.self.recv_timeout
  same_slept : after.slept ≡ s.slept

module _ (s : State) where
  abbrev shut_main : State
  shut_main = shut_option s.self.socket s

  next-shut_main : shut_main.next ≡ s.next
  next-shut_main = ground arith

  recreate_socket_returns : (recreate_socket s).0 ≡ ok tt
  unfolding recreate_socket
  recreate_socket_returns = ground (arith, ==_refl shut_main.next)

  recreate_socket-IsReady : IsReady s.next s (recreate_socket s).1
  unfolding recreate_socket
  recreate_socket-IsReady = record {
    is_main = ground (arith, ==_refl shut_main.next);
    is_open = ground (arith, ==_refl s.next, ==_refl shut_main.next);
    same_recv = ground (arith, ==_refl shut_main.next);
    same_slept = ground (arith, ==_refl shut_main.next);
  }

-- What `refresh` leaves.
record IsFresh (s : State) (r : Result (Unit {0}) × State) : Type 0 where
  returns : r.0 ≡ ok tt
  main : ℕ
  ready : IsReady main s r.1

abbrev refresh_as : Option ℕ → M (Unit {0})
refresh_as o s =
    if (elim o [ none ↦ true | some k ↦ not (s.os k).is_open ])
    then recreate_socket s
    else (ok tt, s)

refresh_as-IsFresh : (o : Option ℕ) (s : State) → s.self.socket ≡ o → IsFresh s (refresh_as o s)
refresh_as-IsFresh none s e = record {
  returns = recreate_socket_returns s;
  main = s.next;
  ready = recreate_socket-IsReady s;
}
refresh_as-IsFresh (some k) s e = elim (Bool-cases (s.os k).is_open) [
  | inl open_main ↦
      subst (λ b. IsFresh s (if not b then recreate_socket s else (ok tt, s))) (sym open_main)
        (record {
          returns = refl;
          main = k;
          ready = record { is_main = e; is_open = open_main; same_recv = refl; same_slept = refl };
        })
  | inr shut ↦
      subst (λ b. IsFresh s (if not b then recreate_socket s else (ok tt, s))) (sym shut)
        (record {
          returns = recreate_socket_returns s;
          main = s.next;
          ready = recreate_socket-IsReady s;
        })
]

-- With `found` failures before the first success, `connect` returns `True` with an open socket that
-- has the receive timeout; with no success it returns `False`. It has slept 3 seconds for each
-- failed attempt.
abbrev pub ConnectOutcome : State → ℕ → Option ℕ → Result Bool × State → Type 0
ConnectOutcome s left none r = (r.0 ≡ ok false) × (r.1.slept ≡ s.slept + 3 * left)
ConnectOutcome s left (some n) r =
    (k : ℕ) × (r.0 ≡ ok true)
    × (r.1.slept ≡ s.slept + 3 * n)
    × (r.1.self.socket ≡ some k)
    × ((r.1.os k).is_open ≡ true)
    × ((r.1.os k).timeout ≡ s.self.recv_timeout)

ConnectOutcome-later :
    (s t : State) (left : ℕ) (found : Option ℕ) (r : Result Bool × State)
    → t.slept ≡ s.slept + 3
    → t.self.recv_timeout ≡ s.self.recv_timeout
    → ConnectOutcome t left found r
    → ConnectOutcome s (suc left) (plus_one found) r
ConnectOutcome-later s t left none r e recv (p, q) = (p, omega arith)
ConnectOutcome-later s t left (some n) r e recv (k, p, q, m, o, i) =
    (k, p, omega arith, m, o, i ∙ recv)

succeeds :
    (s t : State) (k left : ℕ)
    → IsReady k s t
    → ConnectOutcome s left (some 0) ((settimeout_main >> pure true) t)
unfolding settimeout
succeeds s t k left r = (
  k,
  ground (arith, ==_refl k),
  ground (arith, ==_refl k),
  ground (arith, ==_refl k),
  ground (arith, ==_refl k),
  ground (arith, ==_refl k),
)

bind_returned :
    {A : Type 0} (m : M (Unit {0})) (f : M A) (s : State) → (m s).0 ≡ ok tt → (m >> f) s ≡ f (m s).1
bind_returned m f s e = bind-ok m (λ _. f) s (m s).1 tt (ap (λ r. (r, (m s).1)) e)

module _ (reaches : ℕ → Bool) (attempt left : ℕ) (s u : State) (k : ℕ) (ready : IsReady k s u) where
  abbrev again : M Bool
  again = recreate_socket >> (sleep_three >> connect_loop reaches (attempt + 1) left)

  abbrev slept_on : State
  slept_on = (sleep_three (recreate_socket u).1).1

  again_outcome :
      (found : Option ℕ)
      → ConnectOutcome slept_on left found (connect_loop reaches (attempt + 1) left slept_on)
      → ConnectOutcome s (suc left) (plus_one found) (again u)
  again_outcome found later =
      let fresh = recreate_socket-IsReady u in
      rw
        (bind_returned recreate_socket (sleep_three >> connect_loop reaches (attempt + 1) left) u
          (recreate_socket_returns u))
        (ConnectOutcome-later s slept_on left found _
          (ap (λ n. n + 3) (fresh.same_slept ∙ ready.same_slept))
          (fresh.same_recv ∙ ready.same_recv) later)

connect_loop_outcome :
    (reaches : ℕ → Bool) (left attempt : ℕ) (s : State)
    → ConnectOutcome s left (failures reaches attempt left) (connect_loop reaches attempt left s)
unfolding connect_loop
connect_loop_outcome reaches zero attempt s = (refl, omega arith)
connect_loop_outcome reaches (suc left) attempt s =
    let fresh = refresh_as-IsFresh s.self.socket s refl in
    rw
      (bind_returned refresh
        (if reaches attempt
          then (settimeout_main >> pure true)
          else (recreate_socket >> (sleep_three >> connect_loop reaches (attempt + 1) left)))
        s fresh.returns)
      (elim (Bool-cases (reaches attempt)) [
        | inl yes_now ↦ rw yes_now (succeeds s (refresh s).1 fresh.main (suc left) fresh.ready)
        | inr not_now ↦ rw not_now (
            again_outcome reaches attempt left s (refresh s).1 fresh.main fresh.ready
              (failures reaches (attempt + 1) left)
              (connect_loop_outcome reaches left (attempt + 1) _))
      ])

-- With n failed attempts before the first of ten that succeeds, `connect` returns True with an open
-- main socket that has the receive timeout, after sleeping 3 * n seconds; where none of the ten
-- succeeds it returns False after 30 seconds.
pub connect_outcome :
    (reaches : ℕ → Bool) (s : State)
    → ConnectOutcome s 10 (failures reaches 1 10) (connect reaches s)
unfolding connect
connect_outcome reaches s = connect_loop_outcome reaches 10 1 s
