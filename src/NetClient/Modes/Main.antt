-- ===== src/NetClient/Modes/Main.antt =====
-- scripts/net_client.py: the worker of a client, and the exit code.
use python_json_socket.Prelude.{
  ℕ, ℤ, pos, negsuc, Bool, true, false, ◌&&◌, List, [], ◌∷◌, Option, Text, ltb, if◌then◌else◌,
}
use python_json_socket.Codec.{Codec, Value}
use python_json_socket.JsonSocket.{State, M, Result, ok, raise, pure, ◌>>=◌}
use python_json_socket.NetClient.Modes.{
  Mode, Options, ping, performance, adaptive, Draw, rounds, run_ping, run_performance,
}
use python_json_socket.NetClient.Modes.Adaptive.{run_adaptive}

module _ (c : Codec) (loads : Text → Option Value) (opts : Options) (two_seconds : ℕ) where
  abbrev run_mode : Mode → ℕ → ℕ → (ℕ → ℕ → ℕ → Bool) → (ℕ → ℕ → Bool) → (ℕ → Draw) → M (Unit {0})
  run_mode ping client_id waits first reaches draws =
      run_ping c opts two_seconds loads (draws 0) (first 0 0) >>= λ _. pure tt
  run_mode performance client_id waits first reaches draws =
      run_performance c opts two_seconds client_id (first 0 0) reaches draws
  run_mode adaptive client_id waits first reaches draws =
      run_adaptive c opts two_seconds client_id waits first reaches draws (rounds opts.cycles) 0

  abbrev is_ok : Result (Unit {0}) → Bool
  is_ok (ok done) = true
  is_ok (raise e) = false

  -- What the worker appends to the results: every exception is caught.
  unfoldable pub client_worker :
      ℕ → ℕ → (ℕ → ℕ → ℕ → Bool) → (ℕ → ℕ → Bool) → (ℕ → Draw) → State → Bool × State
  unfolding run_ping run_performance run_adaptive
  client_worker client_id waits first reaches draws s =
      let (r, s') = run_mode opts.mode client_id waits first reaches draws s in (is_ok r, s')

abbrev is_positive : ℤ → Bool
is_positive (pos n) = ltb 0 n
is_positive (negsuc n) = false

abbrev all : List Bool → Bool
all [] = true
all (b ∷ bs) = b && all bs

abbrev worked : List Bool → Bool
worked [] = false
worked (b ∷ bs) = all (b ∷ bs)

-- `main`, after its threads have appended these results.
unfoldable pub exit_code : Options → List Bool → ℕ
exit_code opts results =
    if is_positive opts.num && is_positive opts.count && is_positive opts.cycles
    then (if worked results then 0 else 3)
    else 2
