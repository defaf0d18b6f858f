-- ===== src/ServerFactory/Stopping.antt =====
-- `ServerFactory.stop_all`, in rounds: every worker that is alive is told to stop and joined, and then
-- the threads are purged. What else happens in a round is an argument.
pub mod Ends
use python_json_socket.Prelude.{
  ℕ, ◌+◌, Bool, true, false, not, ◌&&◌, ◌||◌, List, [], ◌∷◌, ◌++◌, Option, none, some, ◌==◌,
  if◌then◌else◌,
}
use python_json_socket.Dict.{Dict}
use python_json_socket.Stats.{ClientStats, Tracker, Now, note_disconnect}
use python_json_socket.ServerFactory.{Worker, Factory, those, purge_threads}

-- In a round: which workers end by themselves, and which the accept loop, if it had a connection
-- already, appends. They may have ended again. Of a worker with these statistics, those that it has
-- behind the loop of its `run`, with the ids, and the clock then.
pub record Round : Type 0 where
  pub ends : ℕ → Bool
  pub arrivals : List Worker
  pub served : ℕ → Dict ClientStats → Tracker
  pub finish : ℕ → Now

abbrev pub is_in : ℕ → List Worker → Bool
is_in i [] = false
is_in i (w ∷ ws) = (w.ident == i) || is_in i ws

-- A factory and which threads are alive.
pub record Running : Type 0 where
  pub factory : Factory
  pub is_alive : ℕ → Bool

-- `join` returns when the thread has ended: none of the joined is alive then.
abbrev pub alive_after : Round → List Worker → (ℕ → Bool) → ℕ → Bool
alive_after r joined is_alive i =
    (is_alive i || is_in i r.arrivals) && not (is_in i joined) && not (r.ends i)

-- What a worker has when it has ended: its `run` calls `_note_disconnect` behind its loop.
abbrev pub finished : Round → Worker → Worker
finished r w = record w {
  stats = (note_disconnect (r.finish w.ident) (r.served w.ident w.stats)).client_stats;
}

-- Those that were alive end, the others have ended before.
unfoldable pub end_those : Round → (ℕ → Bool) → List Worker → List Worker
unfolding note_disconnect
end_those r is_alive [] = []
end_those r is_alive (w ∷ ws) =
    (if is_alive w.ident then finished r w else w) ∷ end_those r is_alive ws

-- The body of the loop, for the workers that were found alive.
unfoldable pub stop_round : Round → Running → Running
unfolding purge_threads end_those
stop_round r f =
    let joined = those f.is_alive f.factory.threads in
    let still = alive_after r joined f.is_alive in
    let grown = record f.factory {
      threads = end_those r f.is_alive f.factory.threads ++ r.arrivals;
    } in
    record { factory = purge_threads still grown; is_alive = still }

abbrev none_alive : List Worker → Bool
none_alive [] = true
none_alive (w ∷ ws) = false

-- `if not threads: break`
abbrev pub all_stopped : Running → Bool
all_stopped f = none_alive (those f.is_alive f.factory.threads)

-- `while True`, for at most the rounds of the list; `none` where it would go on.
unfoldable pub stop_all : List Round → Running → Option Running
unfolding stop_round
stop_all [] f = if all_stopped f then some f else none
stop_all (r ∷ rounds) f =
    let rest = stop_all rounds (stop_round r f) in if all_stopped f then some f else rest
