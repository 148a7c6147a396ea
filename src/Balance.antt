-- ===== src/Balance.antt =====
-- balance.go: the balance monitor. A poll is one step, with what the caller's function returned to
-- it; the callbacks that it makes are listed in their order. A run here is any sequence of polls; the
-- goroutine that makes them stands in Client/Monitor, beside the client that it reports to.
pub mod Laws
use solvela_go.Base.{
  ℕ, ℤ, Bool, true, false, ◌&&◌, not, Option, none, some, List, [], ◌∷◌, ◌++◌, if◌then◌else◌,
}
use solvela_go.Errors.{Error, Result, ok, err}
use solvela_go.Types.Chat.{Float64}
use solvela_go.Floats.{less}

-- The fields of `BalanceMonitor`; of the callbacks, whether they are there.
pub record BalanceMonitor : Type 0 where
  pub poll_interval : ℤ
  pub low_balance_threshold : Option Float64
  pub has_on_low_balance : Bool
  pub has_on_poll : Bool
  pub balance : Option Float64
  pub was_low : Bool
  pub stopped : Bool

pub data Callback : Type 0 where
  on_poll : Float64 → Callback
  on_low_balance : Float64 → Callback

unfoldable pub new_balance_monitor : ℤ → Option Float64 → Bool → BalanceMonitor
new_balance_monitor interval threshold has_low = record {
  poll_interval = interval;
  low_balance_threshold = threshold;
  has_on_low_balance = has_low;
  has_on_poll = false;
  balance = none;
  was_low = false;
  stopped = false;
}

-- `SetOnPoll` of a function that is not nil
unfoldable pub set_on_poll : BalanceMonitor → BalanceMonitor
set_on_poll m = record m { has_on_poll = true }

-- `Stop`: the channel is closed the first time only.
unfoldable pub stop_monitor : BalanceMonitor → BalanceMonitor
stop_monitor m = if not m.stopped then record m { stopped = true } else m

-- `LastKnownBalance`
unfoldable pub last_known_balance : BalanceMonitor → Option Float64
last_known_balance m = m.balance

-- `threshold != nil && onLow != nil`, and then whether the balance is below the threshold
unfoldable pub low_test : Bool → Option Float64 → Float64 → Option Bool
low_test false threshold b = none
low_test true none b = none
low_test true (some t) b = some (less b t)

unfoldable pub test_of : BalanceMonitor → Float64 → Option Bool
unfolding low_test
test_of m b = low_test m.has_on_low_balance m.low_balance_threshold b

abbrev pub remembered : Bool → Option Bool → Bool
remembered was none = was
remembered was (some low) = low

abbrev pub alarm : Bool → Option Bool → Float64 → List Callback
alarm was none b = []
alarm was (some low) b = if low && not was then on_low_balance b ∷ [] else []

-- `poll`
unfoldable pub poll : BalanceMonitor → Result Float64 → BalanceMonitor × List Callback
unfolding test_of
poll m (err e) = (m, [])
poll m (ok b) = (
  record m { balance = some b; was_low = remembered m.was_low (test_of m b) },
  (if m.has_on_poll then on_poll b ∷ [] else []) ++ alarm m.was_low (test_of m b) b,
)

-- The polls of a run, one after the other.
unfoldable pub run_polls : BalanceMonitor → List (Result Float64) → BalanceMonitor × List Callback
unfolding poll
run_polls m [] = (m, [])
run_polls m (r ∷ results) =
    let (m', made) = poll m r in let (m2, more) = run_polls m' results in (m2, made ++ more)
