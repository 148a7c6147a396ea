-- ===== src/Client/Monitor/Stopping.antt =====
-- How the goroutine of the balance monitor comes to its end once it is stopped.
use solvela_go.Base.{
  ℕ, suc, ap, ◌+◌, ◌*◌, ◌≤◌, Bool, true, false, Option, none, some, List, [], ◌∷◌, ◌++◌, ◌≡◌, refl,
  length, arith, ◌&&◌, not, if◌then◌else◌,
}
use solvela_go.Errors.{Result, ok, err, client_error}
use solvela_go.Types.Chat.{Float64}
use solvela_go.Config.{ClientConfig}
use solvela_go.Client.Construction.{new_monitor, new_world}
use solvela_go.Client.Monitor.Agreement.{stop_system-closed, monitor_agrees}
use solvela_go.Balance.{BalanceMonitor, Callback, on_poll, on_low_balance, alarm, poll, test_of}
use solvela_go.Client.Monitor.{
  Phase, fetching, calling, selecting, returned, System, store_balance, stop_system, Reach, Move,
  stores, calls, selects, returns,
}

-- What follows a state: moves of the goroutine and ticks, both counted, and further calls of `Stop`.
pub data Run (s : System) : ℕ → ℕ → System → Type 0 where
  done : Run s 0 0 s
  moved : {t u : System} (n k : ℕ) → Run s n k t → Move t u → Run s (suc n) k u
  ticked :
      {t : System} (n k : ℕ)
      → Run s n k t
      → t.phase ≡ selecting
      → Run s n (suc k) (record t { phase = fetching })
  stopped_again : {t : System} (n k : ℕ) → Run s n k t → Run s n k (stop_system t)

-- How many moves are left at most: a poll makes two callbacks at most.
abbrev pub remaining : Phase → ℕ
remaining returned = 0
remaining selecting = 1
remaining (calling made) = length made + 2
remaining fetching = 5

made_at_most :
    (reports was : Bool) (test : Option Bool) (b : Float64)
    → length ((if reports then on_poll b ∷ [] else []) ++ alarm was test b) ≤ 2
made_at_most true was none b = omega arith
made_at_most false was none b = omega arith
made_at_most reports was (some low) b = two reports (low && not was)
  where
    two :
        (reports warns : Bool)
        → length (
            (if reports then on_poll b ∷ [] else [])
            ++ (if warns then on_low_balance b ∷ [] else []))
          ≤ 2
    two true true = omega arith
    two true false = omega arith
    two false true = omega arith
    two false false = omega arith

store_balance-remaining :
    (s : System) (r : Result Float64)
    → (suc (remaining (store_balance s r).phase) ≤ 5) × ((store_balance s r).closes ≡ s.closes)
unfolding store_balance poll
store_balance-remaining s (err e) = (omega arith, refl)
store_balance-remaining s (ok b) = (
  (let few = made_at_most s.monitor.has_on_poll s.monitor.was_low (test_of s.monitor b) b in
      omega arith),
  refl,
)

move-remaining :
    (s : System) {t : System}
    → Move s t
    → (suc (remaining t.phase) ≤ remaining s.phase) × (t.closes ≡ s.closes)
unfolding store_balance
move-remaining s (stores r here) = rw (here) (store_balance-remaining s r)
move-remaining s (calls made rest here) = (rw (here) (omega arith), refl)
move-remaining s (selects here) = (rw (here) (omega arith), refl)
move-remaining s (returns here ready) = (rw (here) (omega arith), refl)

run-remaining :
    (s : System) {n k : ℕ} {t : System}
    → 1 ≤ s.closes
    → Run s n k t
    → (n + remaining t.phase ≤ remaining s.phase + 4 * k) × (1 ≤ t.closes)
unfolding stop_system
run-remaining s closed done = (omega arith, closed)
run-remaining s closed (moved {t} n k run move) =
    let (fewer, ready) = run-remaining s closed run in
    let (less, same) = move-remaining t move in (omega arith, omega arith)
run-remaining s closed (ticked {t} n k run here) =
    let (fewer, ready) = run-remaining s closed run in
    (omega (arith, fewer, ap remaining here), ready)
run-remaining s closed (stopped_again {t} n k run) =
    let (fewer, ready) = run-remaining s closed run in (fewer, ground (arith, ready))

abbrev prepend : {s t u : System} {n k : ℕ} → Move s t → Run t n k u → Run s (suc n) k u
prepend m done = moved 0 0 done m
prepend m (moved n k run last) = moved (suc n) k (prepend m run) last
prepend m (ticked n k run here) = ticked (suc n) k (prepend m run) here
prepend m (stopped_again n k run) = stopped_again (suc n) k (prepend m run)

-- The goroutine can return within so many moves, without a tick.
abbrev pub ReturnsWithin : System → ℕ → Type 0
ReturnsWithin s bound = (n : ℕ) × (t : System) × Run s n 0 t × (t.phase ≡ returned) × (n ≤ bound)

calling-ReturnsWithin :
    (made : List Callback) (s : System)
    → s.phase ≡ calling made
    → 1 ≤ s.closes
    → ReturnsWithin s (length made + 2)
calling-ReturnsWithin [] s here ready =
    (2, _, moved 1 0 (moved 0 0 done (selects here)) (returns refl ready), refl, omega arith)
calling-ReturnsWithin (cb ∷ made) s here ready =
    let (n, t, run, end, few) =
      calling-ReturnsWithin made (record s { phase = calling made; world = _ }) refl ready in
    (suc n, t, prepend (calls cb made here) run, end, omega arith)

any-ReturnsWithin :
    (p : Phase) (s : System) → s.phase ≡ p → 1 ≤ s.closes → ReturnsWithin s (remaining p)
unfolding store_balance poll
any-ReturnsWithin returned s here ready = (0, s, done, here, omega arith)
any-ReturnsWithin selecting s here ready =
    (1, _, moved 0 0 done (returns here ready), refl, omega arith)
any-ReturnsWithin (calling made) s here ready = calling-ReturnsWithin made s here ready
any-ReturnsWithin fetching s here ready =
    let failed : Result Float64 = err (client_error []) in
    let (n, t, run, end, few) = calling-ReturnsWithin [] (store_balance s failed) refl ready in
    (suc n, t, prepend (stores failed here) run, end, omega arith)

-- Whatever a client's monitor has done before: after `Stop` is called the goroutine makes, up to any
-- moment, at most four more moves for each tick that the select still takes, besides those that were
-- left: five in the caller's function, two more than the callbacks that it has still to make if it is
-- calling back, one in the select and none if it has returned. At each such moment it can return,
-- within what is left then and without another tick, since the channel is closed.
pub monitor_stops :
    (cfg : ClientConfig) (m : BalanceMonitor) {s t : System} (n k : ℕ)
    → new_monitor cfg ≡ some m
    → Reach m (new_world cfg) s
    → Run (stop_system s) n k t
    → (n + remaining t.phase ≤ remaining s.phase + 4 * k) × ReturnsWithin t (remaining t.phase)
unfolding stop_system
monitor_stops cfg m {s} {t} n k made reach run =
    let closed = stop_system-closed s (monitor_agrees cfg m made reach) in
    let (fewer, ready) = run-remaining (stop_system s) closed run in
    (fewer, any-ReturnsWithin t.phase t refl ready)
