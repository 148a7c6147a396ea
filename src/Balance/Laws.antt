-- ===== src/Balance/Laws.antt =====
-- When a run of polls calls back.
use solvela_go.Base.{
  ◌≡◌, refl, ap, ◌∙◌, Bool, true, false, ◌&&◌, not, Option, some, List, [], ◌∷◌, ◌++◌,
  if◌then◌else◌,
}
use solvela_go.Errors.{Result, ok, err}
use solvela_go.Types.Chat.{Float64}
use solvela_go.Floats.{less}
use solvela_go.Balance.{
  BalanceMonitor, Callback, on_poll, on_low_balance, alarm, poll, run_polls, test_of, low_test,
}

-- The balances that were fetched.
abbrev pub fetched : List (Result Float64) → List Float64
fetched [] = []
fetched (ok b ∷ results) = b ∷ fetched results
fetched (err e ∷ results) = fetched results

-- The balances that a list of callbacks warns of, and those that it reports.
abbrev pub warnings : List Callback → List Float64
warnings [] = []
warnings (on_low_balance b ∷ made) = b ∷ warnings made
warnings (on_poll b ∷ made) = warnings made

abbrev pub reports : List Callback → List Float64
reports [] = []
reports (on_low_balance b ∷ made) = reports made
reports (on_poll b ∷ made) = b ∷ reports made

-- The balances below the threshold whose predecessor was not; `was` is what the first one follows.
abbrev pub drops : Float64 → Bool → List Float64 → List Float64
drops t was [] = []
drops t was (b ∷ bs) =
    let rest = drops t (less b t) bs in if less b t && not was then b ∷ rest else rest

-- The last of the balances, or what was known before.
abbrev pub latest : Option Float64 → List Float64 → Option Float64
latest known [] = known
latest known (b ∷ bs) = latest (some b) bs

-- A monitor that watches a threshold.
abbrev pub Watches : BalanceMonitor → Float64 → Type 0
Watches m t = (m.has_on_low_balance ≡ true) × (m.low_balance_threshold ≡ some t)

poll_warnings :
    (reports_it was low : Bool) (b : Float64) (rest : List Callback)
    → warnings (((if reports_it then on_poll b ∷ [] else []) ++ alarm was (some low) b) ++ rest)
      ≡ (if low && not was then b ∷ warnings rest else warnings rest)
poll_warnings true true true b rest = refl
poll_warnings true true false b rest = refl
poll_warnings true false true b rest = refl
poll_warnings true false false b rest = refl
poll_warnings false true true b rest = refl
poll_warnings false true false b rest = refl
poll_warnings false false true b rest = refl
poll_warnings false false false b rest = refl

watched :
    (t : Float64) (m : BalanceMonitor) (b : Float64) → Watches m t → test_of m b ≡ some (less b t)
unfolding test_of
watched t m b (has, threshold) = rw (has, threshold, low_test) refl

-- Over any run of polls of a monitor that watches a threshold, failed ones among them, the balances
-- that it warns of are exactly those fetched that lie below the threshold while the one fetched
-- before did not, and the balance that it knows is the last one fetched.
pub run_polls_lem :
    (t : Float64) (m : BalanceMonitor) (results : List (Result Float64))
    → Watches m t
    → (warnings (run_polls m results).1 ≡ drops t m.was_low (fetched results))
      × ((run_polls m results).0.balance ≡ latest m.balance (fetched results))
unfolding run_polls poll
run_polls_lem t m [] watches = (refl, refl)
run_polls_lem t m (err e ∷ results) watches = run_polls_lem t m results watches
run_polls_lem t m (ok b ∷ results) watches =
    let low = less b t in
    let m' : BalanceMonitor = record m { balance = some b; was_low = low } in
    let (warned, known) = run_polls_lem t m' results watches in
    rw (watched t m b watches) (
      poll_warnings m.has_on_poll m.was_low low b (run_polls m' results).1
          ∙ ap (λ l. if low && not m.was_low then b ∷ l else l) warned,
      known,
    )
