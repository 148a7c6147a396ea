-- ===== src/Tests/Monitors.antt =====
-- A client's balance monitor, started, polled and stopped.
use solvela_go.Base.{◌+◌, ◌*◌, ◌≤◌, ◌≡◌, refl, pos, true, false, none, some, []}
use solvela_go.Errors.{ok}
use solvela_go.Config.{ClientConfig}
use solvela_go.Balance.{BalanceMonitor, on_poll}
use solvela_go.Client.Construction.{new_monitor, new_world}
use solvela_go.Client.Monitor.{
  System, calling, call_back, start_monitor, store_balance, stop_system, stores, calls, moves,
  stops, Reach, starts, later,
}
use solvela_go.Client.Monitor.Agreement.{IsAgreed, monitor_agrees}
use solvela_go.Client.Monitor.Stopping.{Run, done, moved, remaining, ReturnsWithin, monitor_stops}
use solvela_go.Tests.Fixtures.{config}

abbrev watched : ClientConfig
watched = record config { balance_poll_interval = pos 30; balance_fetcher = some (λ n. ok 9) }

abbrev monitor : BalanceMonitor
monitor = record {
  poll_interval = pos 30;
  low_balance_threshold = none;
  has_on_low_balance = false;
  has_on_poll = true;
  balance = none;
  was_low = false;
  stopped = false;
}

made : new_monitor watched ≡ some monitor
unfolding new_monitor
made = refl

-- The first poll is stored; before it is reported, another goroutine stops the monitor.
abbrev polled : System
polled = store_balance (start_monitor monitor (new_world watched)) (ok 9)

abbrev stopped_early : System
stopped_early = stop_system polled

stopped_early-Reach : Reach monitor (new_world watched) stopped_early
unfolding start_monitor
stopped_early-Reach = later (later starts (moves (stores (ok 9) refl))) stops

monitor_agrees_example : IsAgreed stopped_early
monitor_agrees_example = monitor_agrees watched monitor made stopped_early-Reach

abbrev reported : System
reported = record stopped_early {
  phase = calling [];
  world = call_back (on_poll 9) stopped_early.world;
}

polled-Reach : Reach monitor (new_world watched) polled
unfolding start_monitor
polled-Reach = later starts (moves (stores (ok 9) refl))

reporting : Run stopped_early 1 0 reported
unfolding stop_system store_balance start_monitor
reporting = moved 0 0 done (calls (on_poll 9) [] refl)

monitor_stops_example :
    (1 + remaining reported.phase ≤ remaining polled.phase + 4 * 0)
    × ReturnsWithin reported (remaining reported.phase)
monitor_stops_example = monitor_stops watched monitor 1 0 made polled-Reach reporting
