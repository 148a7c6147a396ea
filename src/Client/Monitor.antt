-- ===== src/Client/Monitor.antt =====
-- balance.go and client.go: the goroutine of the balance monitor beside the client that it reports to.
-- What the mutex of the monitor guards is one step, as is each callback; the client's balance lags
-- behind the monitor's by the callbacks that are still to be made. What the caller's function
-- answers, and when the ticker ticks, is free.
pub mod Agreement
pub mod Stopping
use solvela_go.Base.{
  ℕ, zero, suc, Bool, true, false, Option, none, some, List, [], ◌∷◌, ◌≡◌, ◌≤◌, if◌then◌else◌,
  length, ◌+◌,
}
use solvela_go.Errors.{Result}
use solvela_go.Types.Chat.{Float64}
use solvela_go.Balance.{
  BalanceMonitor, Callback, on_poll, on_low_balance, poll, stop_monitor, last_known_balance,
}
use solvela_go.Client.Chat.{set_last_balance, get_last_balance}
use solvela_go.Exec.{World}

-- Where `run` stands: in the caller's function, before its next callback, in the select, or returned.
pub data Phase : Type 0 where
  fetching : Phase
  calling : List Callback → Phase
  selecting : Phase
  returned : Phase

pub record System : Type 0 where
  pub monitor : BalanceMonitor
  pub phase : Phase
  -- the client's fields
  pub world : World
  -- how often `stopCh` was closed
  pub closes : ℕ

-- `Start`: the first poll is made at once.
unfoldable pub start_monitor : BalanceMonitor → World → System
start_monitor m w = record { monitor = m; phase = fetching; world = w; closes = 0 }

-- The callbacks as `NewClient` sets them: `onPoll` is `setLastBalance`; what the caller does on a low
-- balance leaves the client alone.
unfoldable pub call_back : Callback → World → World
unfolding set_last_balance
call_back (on_poll b) w = set_last_balance b w
call_back (on_low_balance b) w = w

-- `poll` from the answer of the caller's function to the unlocking, with the callbacks it settles
unfoldable pub store_balance : System → Result Float64 → System
unfolding poll
store_balance s r =
    let (m, made) = poll s.monitor r in record s { monitor = m; phase = calling made }

-- `Stop`, called from another goroutine
unfoldable pub stop_system : System → System
unfolding stop_monitor
stop_system s = record s {
  monitor = stop_monitor s.monitor;
  closes = if s.monitor.stopped then s.closes else suc s.closes;
}

-- A step of the goroutine that is not a tick.
pub data Move (s : System) : System → Type 0 where
  stores : (r : Result Float64) → s.phase ≡ fetching → Move s (store_balance s r)
  calls :
      (made : Callback) (rest : List Callback)
      → s.phase ≡ calling (made ∷ rest)
      → Move s (record s { phase = calling rest; world = call_back made s.world })
  selects : s.phase ≡ calling [] → Move s (record s { phase = selecting })
  -- `stopCh` is ready once it is closed.
  returns : s.phase ≡ selecting → 1 ≤ s.closes → Move s (record s { phase = returned })

-- The select may take the tick even if the channel is closed.
pub data Step (s : System) : System → Type 0 where
  moves : {t : System} → Move s t → Step s t
  ticks : s.phase ≡ selecting → Step s (record s { phase = fetching })
  stops : Step s (stop_system s)

pub data Reach (m : BalanceMonitor) (w : World) : System → Type 0 where
  starts : Reach m w (start_monitor m w)
  later : {s t : System} → Reach m w s → Step s t → Reach m w t

-- The callbacks that are still to be made.
unfoldable pub pending : Phase → List Callback
pending (calling made) = made
pending fetching = []
pending selecting = []
pending returned = []

unfoldable pub call_all : List Callback → World → World
unfolding call_back
call_all [] w = w
call_all (made ∷ rest) w = call_all rest (call_back made w)

-- A balance, and whether there is one, as `getLastBalance` gives them.
unfoldable pub known : Option Float64 → Float64 × Bool
known none = (0, false)
known (some b) = (b, true)
