-- ===== src/ServerFactory/Run/Exit.antt =====
-- The end of `ServerFactory.run`.
use python_json_socket.Prelude.{
  ℕ, ◌≡◌, ◌≢◌, refl, sym, ap, ◌∙◌, Bool, true, false, List, [], ◌∷◌, ◌++◌, some, arith, ◌==◌,
  ==_iff, Bool-cases, inl, inr, ◌⊎◌,
}
use python_json_socket.Os.{Sock}
use python_json_socket.JsonSocket.{State}
use python_json_socket.JsonSocket.Close.{close}
use python_json_socket.JsonSocket.Close.Closed.{close_both}
use python_json_socket.ServerFactory.{Factory, get_num_of_active_threads}
use python_json_socket.ServerFactory.Run.{Operation, Pass, run_passes, wait_to_exit, run}
use python_json_socket.ServerFactory.Run.Owned.{Owns, IsTidy, ArePlainPasses, run_passes-IsTidy}

wait_to_exit-true :
    (looks : List (ℕ → Bool)) (last : ℕ → Bool) (f : Factory)
    → get_num_of_active_threads last f ≡ 0
    → wait_to_exit (looks ++ (last ∷ [])) f ≡ true
unfolding wait_to_exit
wait_to_exit-true [] last f h = rw h refl
wait_to_exit-true (look ∷ looks) last f h = ground (arith, wait_to_exit-true looks last f h)

-- The factory has been closed, and what is open now and was not at the start is a worker's.
pub record IsLeft (k : ℕ) (start : State) (o : Operation) : Type 0 where
  pub closed : (o.sock.os k).is_open ≡ false
  pub owned :
      (i : ℕ) → (o.sock.os i).is_open ≡ true → ((start.os i).is_open ≡ true) ⊎ Owns i o.spawned

close-IsLeft :
    (k : ℕ) (start : State) (o : Operation)
    → IsTidy k start o
    → IsLeft k start (record o { sock = close o.sock })
close-IsLeft k start o t =
    let (shut, main, self, others) = close_both k k o.sock t.listening.no_conn t.listening.main in
    record {
      closed = shut;
      owned = λ i up. elim (Bool-cases (k == i)) [
        | inl same ↦
            absurd
              (cc (sym shut ∙ ap (λ j. ((close o.sock).os j).is_open) ((==_iff k i).0 same) ∙ up))
        | inr other ↦
            let apart : i ≢ k = λ e. cc (sym other ∙ (==_iff k i).1 (sym e)) in
            t.owned i (ap (λ (x : Sock). x.is_open) (sym (others i apart apart)) ∙ up)
      ];
    }

-- A factory that listens runs through any passes, in which connections arrive or fail to, its waits
-- end in any way and anything goes wrong with the workers, whose constructor creates no socket. When
-- one of its looks finds no active thread, `run` returns: the listening socket is closed, and every
-- socket that is open was open before or is the connection of a worker that it has spawned.
pub run-IsLeft :
    (k : ℕ) (start : State) (passes : List Pass) (looks : List (ℕ → Bool)) (last : ℕ → Bool)
    (o : Operation)
    → ArePlainPasses passes
    → IsTidy k start o
    → get_num_of_active_threads last (run_passes passes o).factory ≡ 0
    → (after : Operation) × (run passes (looks ++ (last ∷ [])) o ≡ some after)
      × IsLeft k start after
unfolding run
run-IsLeft k start passes looks last o plain t idle =
    let left = run_passes passes o in
    (
      record left { sock = close left.sock },
      rw (wait_to_exit-true looks last left.factory idle) refl,
      close-IsLeft k start left (run_passes-IsTidy k start passes o plain t),
    )
