-- ===== src/Client/Monitor/Agreement.antt =====
-- What the client knows of its balance while the monitor runs.
use solvela_go.Base.{
  ◌≤◌, arith, suc, Bool, true, false, Option, none, some, ◌≡◌, refl, ap, ◌∙◌, if◌then◌else◌,
  Bool-cases, inl, inr,
}
use mathlib.Core.Path.{subst}
use solvela_go.Errors.{Result, ok, err}
use solvela_go.Types.Chat.{Float64}
use solvela_go.Config.{ClientConfig}
use solvela_go.Balance.{
  BalanceMonitor, alarm, poll, stop_monitor, last_known_balance, set_on_poll, new_balance_monitor,
}
use solvela_go.Client.Chat.{set_last_balance, get_last_balance}
use solvela_go.Client.Construction.{new_monitor, new_world}
use solvela_go.Exec.{World}
use solvela_go.Client.Monitor.{
  fetching, returned, System, start_monitor, call_back, store_balance, stop_system, Move, stores,
  calls, selects, returns, Step, moves, ticks, stops, Reach, starts, later, pending, call_all,
  known,
}

-- The client knows what the monitor knows, up to the callbacks that are still to be made; the
-- channel is closed once, by the first stop; and the goroutine returns only after it.
pub record IsAgreed (s : System) : Type 0 where
  pub reported :
      get_last_balance (call_all (pending s.phase) s.world) ≡ known (last_known_balance s.monitor)
  pub closed : s.closes ≡ (if s.monitor.stopped then 1 else 0)
  pub halted : s.phase ≡ returned → s.monitor.stopped ≡ true

-- The callbacks of `NewClient`: each poll is reported.
record IsWired (s : System) : Type 0 where
  reports : s.monitor.has_on_poll ≡ true
  agrees : IsAgreed s

call_all-alarm :
    (was : Bool) (test : Option Bool) (b : Float64) (w : World) → call_all (alarm was test b) w ≡ w
unfolding call_all call_back
call_all-alarm was none b w = refl
call_all-alarm true (some true) b w = refl
call_all-alarm true (some false) b w = refl
call_all-alarm false (some true) b w = refl
call_all-alarm false (some false) b w = refl

store_balance-IsWired :
    (s : System) (r : Result Float64) → s.phase ≡ fetching → IsWired s → IsWired (store_balance s r)
unfolding store_balance poll pending call_all call_back last_known_balance known get_last_balance
    set_last_balance
store_balance-IsWired s (err e) here i = record {
  reports = i.reports;
  agrees = record {
    reported = (rw here at i.agrees.reported);
    closed = i.agrees.closed;
    halted = λ there. cc;
  };
}
store_balance-IsWired s (ok b) here i = record {
  reports = i.reports;
  agrees = record {
    reported = rw (i.reports) (ap get_last_balance (call_all-alarm s.monitor.was_low _ b _));
    closed = i.agrees.closed;
    halted = λ there. cc;
  };
}

-- The channel is closed by `Stop` only.
closed-stopped : (s : System) → IsAgreed s → 1 ≤ s.closes → s.monitor.stopped ≡ true
closed-stopped s i ready = elim (Bool-cases s.monitor.stopped) [
  | inl stopped ↦ stopped
  | inr running ↦ absurd (omega (arith, (rw running at i.closed), ready))
]

-- Once `Stop` was called it is closed.
pub stop_system-closed : (s : System) → IsAgreed s → 1 ≤ (stop_system s).closes
unfolding stop_system
stop_system-closed s i = elim (Bool-cases s.monitor.stopped) [
  | inl stopped ↦ rw (stopped) (omega (arith, (rw stopped at i.closed)))
  | inr running ↦ rw (running) (omega arith)
]

Move-IsWired : (s : System) {t : System} → Move s t → IsWired s → IsWired t
unfolding pending call_all
Move-IsWired s (stores r here) i = store_balance-IsWired s r here i
Move-IsWired s (calls made rest here) i = record {
  reports = i.reports;
  agrees = record {
    reported = (rw here at i.agrees.reported);
    closed = i.agrees.closed;
    halted = λ there. cc;
  };
}
Move-IsWired s (selects here) i = record {
  reports = i.reports;
  agrees = record {
    reported = (rw here at i.agrees.reported);
    closed = i.agrees.closed;
    halted = λ there. cc;
  };
}
Move-IsWired s (returns here ready) i = record {
  reports = i.reports;
  agrees = record {
    reported = (rw here at i.agrees.reported);
    closed = i.agrees.closed;
    halted = λ there. closed-stopped s i.agrees ready;
  };
}

stop_system-IsWired : (s : System) → IsWired s → IsWired (stop_system s)
unfolding stop_system stop_monitor last_known_balance
stop_system-IsWired s i = elim (Bool-cases s.monitor.stopped) [
  | inl stopped ↦ rw (stopped) (record {
    reports = i.reports;
    agrees = record {
      reported = i.agrees.reported;
      closed = i.agrees.closed ∙ rw (stopped) refl;
      halted = λ there. refl;
    };
  })
  | inr running ↦ rw (running) (record {
    reports = i.reports;
    agrees = record {
      reported = i.agrees.reported;
      closed = ap suc (i.agrees.closed ∙ rw (running) refl);
      halted = λ there. refl;
    };
  })
]

Step-IsWired : (s : System) {t : System} → Step s t → IsWired s → IsWired t
unfolding pending call_all
Step-IsWired s (moves m) i = Move-IsWired s m i
Step-IsWired s (ticks here) i = record {
  reports = i.reports;
  agrees = record {
    reported = (rw here at i.agrees.reported);
    closed = i.agrees.closed;
    halted = λ there. cc;
  };
}
Step-IsWired s stops i = stop_system-IsWired s i

Reach-IsWired :
    (m : BalanceMonitor) (w : World) {s : System}
    → IsWired (start_monitor m w)
    → Reach m w s
    → IsWired s
Reach-IsWired m w i starts = i
Reach-IsWired m w i (later {s} r step) = Step-IsWired s step (Reach-IsWired m w i r)

abbrev NewStart : ClientConfig → Option BalanceMonitor → Type 0
NewStart cfg none = Unit
NewStart cfg (some m) = IsWired (start_monitor m (new_world cfg))

built-IsWired :
    (cfg : ClientConfig) (asked : Bool)
    → NewStart cfg (
        if asked
        then some (set_on_poll (new_balance_monitor cfg.balance_poll_interval none false))
        else none)
unfolding set_on_poll new_balance_monitor start_monitor pending call_all last_known_balance known
    get_last_balance new_world
built-IsWired cfg false = tt
built-IsWired cfg true = record {
  reports = refl;
  agrees = record { reported = refl; closed = refl; halted = λ there. cc };
}

-- Whatever a client's monitor, its ticker and the stops of other goroutines did since `NewClient`,
-- in any order and whatever each poll answered: the balance that `Chat` and `ChatStream` read is the
-- last known one of the monitor, up to the callbacks that the goroutine has still to make;
-- the channel was closed at most once, by the first stop; and the goroutine returned only after it.
pub monitor_agrees :
    (cfg : ClientConfig) (m : BalanceMonitor) {s : System}
    → new_monitor cfg ≡ some m
    → Reach m (new_world cfg) s
    → IsAgreed s
unfolding new_monitor
monitor_agrees cfg m made r =
    (Reach-IsWired m (new_world cfg) (subst (NewStart cfg) made (built-IsWired cfg _)) r).agrees
