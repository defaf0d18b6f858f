-- ===== src/ServerFactory/Stopping/Ends.antt =====
-- `stop_all` ends as soon as a round brings no new worker, and loses no count.
use python_json_socket.Prelude.{
  ℕ, ◌-◌, ◌+◌, ◌≤◌, ◌≡◌, refl, sym, ap, ◌∙◌, Bool, true, false, List, [], ◌∷◌, ◌++◌, append-nil,
  some, arith, ◌==◌, ==_refl, ==_iff, Bool-cases, inl, inr,
}
use python_json_socket.Dict.{Dict}
use python_json_socket.Stats.{ClientStats}
use python_json_socket.Stats.Count.{Counter, total, total-note_disconnect}
use python_json_socket.ServerFactory.{Worker, those, purge_threads}
use python_json_socket.ServerFactory.Totals.{owed}
use python_json_socket.ServerFactory.Counted.{grand_total, purge_threads-grand_total}
use python_json_socket.ServerFactory.Stopping.{
  Round, Running, is_in, alive_after, end_those, stop_round, all_stopped, none_alive, stop_all,
}

those-none :
    (test : ℕ → Bool) (ws : List Worker)
    → ((i : ℕ) → is_in i ws ≡ true → test i ≡ false)
    → those test ws ≡ []
those-none test [] h = refl
those-none test (w ∷ ws) h =
    let here : test w.ident ≡ false = h w.ident (ground (arith, ==_refl w.ident)) in
    rw here (those-none test ws (λ i m. h i (ground arith)))

is_in-those :
    (test : ℕ → Bool) (ws : List Worker) (i : ℕ)
    → is_in i ws ≡ true
    → test i ≡ true
    → is_in i (those test ws) ≡ true
is_in-those test [] i m t = m
is_in-those test (w ∷ ws) i m t = elim (Bool-cases (test w.ident)) [
  | inl holds ↦ rw holds (ground (arith, is_in-those test ws i))
  | inr fails ↦ elim (Bool-cases (w.ident == i)) [
    | inl same ↦ cc (sym fails ∙ (ap test ((==_iff w.ident i).0 same) ∙ t))
    | inr other ↦ rw fails (is_in-those test ws i (rw other at m) t)
  ]
]

is_in-end_those :
    (r : Round) (is_alive : ℕ → Bool) (ws : List Worker) (i : ℕ)
    → is_in i (end_those r is_alive ws) ≡ is_in i ws
unfolding end_those
is_in-end_those r is_alive [] i = refl
is_in-end_those r is_alive (w ∷ ws) i = elim (Bool-cases (is_alive w.ident)) [
  | inl up ↦ rw (up, is_in-end_those r is_alive ws i) refl
  | inr down ↦ rw (down, is_in-end_those r is_alive ws i) refl
]

-- After a round without arrivals no thread is left.
quiet_round :
    (r : Round) (f : Running)
    → r.arrivals ≡ []
    → those (stop_round r f).is_alive (stop_round r f).factory.threads ≡ []
unfolding stop_round purge_threads
quiet_round r f quiet =
    let threads = f.factory.threads in
    let over = end_those r f.is_alive threads in
    let still = alive_after r (those f.is_alive threads) f.is_alive in
    let gone : (i : ℕ) → is_in i over ≡ true → still i ≡ false = λ i m.
      elim (Bool-cases (f.is_alive i)) [
        | inl up ↦
            rw
              (is_in-those f.is_alive threads i (sym (is_in-end_those r f.is_alive threads i) ∙ m)
                up)
              (ground arith)
        | inr down ↦ rw (quiet, down) refl
      ] in
    ap (λ l. those still (those still (over ++ l))) quiet
    ∙ ap (λ l. those still (those still l)) (append-nil over)
    ∙ ap (those still) (those-none still over gone)

owed-append : (c : Counter) (ws more : List Worker) → owed c (ws ++ more) ≡ owed c ws + owed c more
unfolding owed
owed-append c [] more = omega arith
owed-append c (w ∷ ws) more = omega (arith, owed-append c ws more)

-- What the workers have counted that end in a round.
abbrev owed_after : Counter → Round → Running → ℕ
owed_after c r f = owed c (end_those r f.is_alive f.factory.threads)

stop_round-grand_total :
    (c : Counter) (r : Round) (f : Running)
    → grand_total c (stop_round r f).factory
      ≡ total c f.factory.archive + owed_after c r f + owed c r.arrivals
unfolding stop_round
stop_round-grand_total c r f =
    let over = end_those r f.is_alive f.factory.threads in
    let still = alive_after r (those f.is_alive f.factory.threads) f.is_alive in
    let grown = record f.factory { threads = over ++ r.arrivals } in
    omega (arith, purge_threads-grand_total c still grown, owed-append c over r.arrivals)

-- While a worker serves, its counters only go up.
abbrev pub OnlyCounts : Round → Type 0
OnlyCounts r =
    (c : Counter) (i : ℕ) (d : Dict ClientStats) → total c d ≤ total c (r.served i d).client_stats

abbrev pub EachOnlyCounts : List Round → Type 0
EachOnlyCounts [] = Unit
EachOnlyCounts (r ∷ rounds) = OnlyCounts r × EachOnlyCounts rounds

owed-end_those :
    (c : Counter) (r : Round) (is_alive : ℕ → Bool) (ws : List Worker)
    → OnlyCounts r
    → owed c ws ≤ owed c (end_those r is_alive ws)
unfolding owed end_those
owed-end_those c r is_alive [] counts = omega arith
owed-end_those c r is_alive (w ∷ ws) counts = elim (Bool-cases (is_alive w.ident)) [
  | inl up ↦ elim (Bool-cases w.archived) [
    | inl old ↦ rw (up, old) (omega (arith, owed-end_those c r is_alive ws counts))
    | inr new ↦
        rw (up, new)
          (omega (
            arith,
            owed-end_those c r is_alive ws counts,
            counts c w.ident w.stats,
            total-note_disconnect c (r.finish w.ident) (r.served w.ident w.stats),
          ))
  ]
  | inr down ↦ rw down (omega (arith, owed-end_those c r is_alive ws counts))
]

-- What the workers that arrive have counted, and those that end meanwhile.
unfoldable pub brought : Counter → List Round → ℕ
unfolding owed
brought c [] = 0
brought c (r ∷ rounds) = owed c r.arrivals + brought c rounds

unfoldable pub gained : Counter → List Round → Running → ℕ
unfolding owed stop_round end_those
gained c [] f = 0
gained c (r ∷ rounds) f =
    (owed_after c r f - owed c f.factory.threads) + gained c rounds (stop_round r f)

-- The loop has ended, with no thread alive and nothing lost or counted twice.
pub record Stops (rounds : List Round) (f : Running) : Type 0 where
  pub after : Running
  pub result : stop_all rounds f ≡ some after
  pub none_left : those after.is_alive after.factory.threads ≡ []
  pub kept : (c : Counter) → grand_total c f.factory ≤ grand_total c after.factory
  pub bounded :
      (c : Counter)
      → grand_total c after.factory ≤ grand_total c f.factory + brought c rounds + gained c rounds f

none_alive-nil : (ws : List Worker) → none_alive ws ≡ true → ws ≡ []
none_alive-nil [] h = refl
none_alive-nil (w ∷ ws) h = cc

-- The test stops the loop.
stop_all-now : (rounds : List Round) (f : Running) → all_stopped f ≡ true → Stops rounds f
unfolding stop_all brought gained
stop_all-now [] f h = record {
  after = f;
  result = rw h refl;
  none_left = none_alive-nil (those f.is_alive f.factory.threads) h;
  kept = λ c. omega arith;
  bounded = λ c. omega arith;
}
stop_all-now (r ∷ rounds) f h = record {
  after = f;
  result = rw h refl;
  none_left = none_alive-nil (those f.is_alive f.factory.threads) h;
  kept = λ c. omega arith;
  bounded = λ c. omega arith;
}

-- Or there is a round more.
stop_all-later :
    (r : Round) (rounds : List Round) (f : Running)
    → all_stopped f ≡ false
    → OnlyCounts r
    → Stops rounds (stop_round r f)
    → Stops (r ∷ rounds) f
unfolding stop_all brought gained
stop_all-later r rounds f h counts s = record {
  after = s.after;
  result = rw h s.result;
  none_left = s.none_left;
  kept = λ c. omega (
    arith,
    s.kept c,
    stop_round-grand_total c r f,
    owed-end_those c r f.is_alive f.factory.threads counts,
  );
  bounded = λ c. omega (
    arith,
    s.bounded c,
    stop_round-grand_total c r f,
    owed-end_those c r f.is_alive f.factory.threads counts,
  );
}

-- Whatever ends and arrives in the rounds of `stop_all`, while the counters of a worker that serves
-- only go up: the loop stops at the latest at the test behind the first round in which no worker
-- arrives. Then no thread of the factory is alive, no counter has lost anything of what the factory
-- had counted, and none exceeds it by more than what the workers brought that arrived, and what those
-- that ended had counted meanwhile, their disconnects included.
pub stop_all-Stops :
    (busy : List Round) (quiet : Round) (f : Running)
    → EachOnlyCounts busy
    → OnlyCounts quiet
    → quiet.arrivals ≡ []
    → Stops (busy ++ (quiet ∷ [])) f
stop_all-Stops [] quiet f all counts q = elim (Bool-cases (all_stopped f)) [
  | inl now ↦ stop_all-now (quiet ∷ []) f now
  | inr later ↦
      stop_all-later quiet [] f later counts
        (stop_all-now [] (stop_round quiet f) (ap none_alive (quiet_round quiet f q)))
]
stop_all-Stops (r ∷ busy) quiet f (first, all) counts q = elim (Bool-cases (all_stopped f)) [
  | inl now ↦ stop_all-now (r ∷ (busy ++ (quiet ∷ []))) f now
  | inr later ↦
      stop_all-later r (busy ++ (quiet ∷ [])) f later first
        (stop_all-Stops busy quiet (stop_round r f) all counts q)
]
