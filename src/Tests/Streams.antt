-- ===== src/Tests/Streams.antt =====
-- Streams, the monitor and the construction of a client at concrete inputs.
use solvela_go.Base.{
  Bytes, ℕ, zero, suc, ◌⊎◌, ◌≡◌, refl, ◌≤◌, ◌+◌, pos, Bool, true, false, none, some, List, [], ◌∷◌,
  inl, codes, map, bytes_eq,
}
use solvela_go.Strings.{has_prefix, trim_space}
use solvela_go.Errors.{ok, err, foreign}
use solvela_go.Config.{Setting, with_gateway_url, with_cache, apply_all, default_config}
use solvela_go.Floats.{less}
use solvela_go.Url.{validate_gateway_url}
use solvela_go.Stream.{chunk, data_of, read_lines, forward}
use solvela_go.Stream.Laws.{
  Starts, Carries, done, skip, next, always, forward-Starts, read_lines-Starts, read_lines-Carries,
}
use solvela_go.Balance.{BalanceMonitor, new_balance_monitor, run_polls}
use solvela_go.Balance.Laws.{warnings, drops, fetched, latest, run_polls_lem}
use solvela_go.Exec.Effort.{exchanges, signings}
use solvela_go.Client.Signatures.{IsSound}
use solvela_go.Client.Streams.{chat_stream}
use solvela_go.Client.Streams.Safety.{chat_stream-IsSound}
use solvela_go.Client.Streams.Effort.{chat_stream_effort}
use solvela_go.Client.Chat.{chat, set_last_balance}
use solvela_go.Client.Life.{Reach, starts, later, chats, streams, reports, IsSafe, client-IsSafe}
use solvela_go.Exec.{World}
use solvela_go.Client.Construction.{NewClient, assemble, new_client}
use solvela_go.Tests.Fixtures.{gateway, lib, env, client, request, world, piece}

chat_stream-IsSound_example :
    IsSound lib client (chat_stream lib (env (codes "Hi.")) client request world).1.history
chat_stream-IsSound_example = chat_stream-IsSound lib (env (codes "Hi.")) client request world tt

chat_stream_effort_example :
    (exchanges (chat_stream lib (env []) client request world).1.history ≤ 0 + 2)
    × (signings (chat_stream lib (env []) client request world).1.history ≤ 0 + 1)
chat_stream_effort_example = chat_stream_effort lib (env []) client request world

-- Two chunks with a comment between them, and a line behind the end.
abbrev lines : List Bytes
lines =
    codes "data: a" ∷ codes ": ping" ∷ codes "data: b" ∷ codes "data: [DONE]" ∷ codes "data: c" ∷ []

lines_carry : Carries lib lines (piece (codes "a") ∷ piece (codes "b") ∷ [])
unfolding data_of has_prefix trim_space codes bytes_eq
lines_carry =
    next _ (codes "a") _ _ _ refl (λ h. cc) refl
      (skip _ _ _ refl (next _ (codes "b") _ _ _ refl (λ h. cc) refl (done _ _ refl)))

read_lines-Carries_example :
    read_lines lib always always 0 lines none
    ≡ map chunk (piece (codes "a") ∷ piece (codes "b") ∷ [])
read_lines-Carries_example = read_lines-Carries lib 0 none lines_carry

abbrev first_only : ℕ → Bool
first_only zero = true
first_only (suc n) = false

read_lines-Starts_example :
    Starts
      (read_lines lib first_only always 0 lines none)
      (read_lines lib always always 0 lines none)
read_lines-Starts_example = read_lines-Starts lib first_only always 0 lines none

forward-Starts_example :
    Starts
      (forward always first_only 0 (map chunk (piece [] ∷ piece [] ∷ []))).0
      (map chunk (piece [] ∷ piece [] ∷ []))
    × (((forward always first_only 0 (map chunk (piece [] ∷ piece [] ∷ []))).1 ≡ false)
        ⊎ ((forward always first_only 0 (map chunk (piece [] ∷ piece [] ∷ []))).0
            ≡ map chunk (piece [] ∷ piece [] ∷ [])))
forward-Starts_example = forward-Starts always first_only 0 (map chunk (piece [] ∷ piece [] ∷ []))

-- A monitor with the threshold 1, and the balances 2, 0, a failure, 0 and 2.
abbrev monitor : BalanceMonitor
monitor = new_balance_monitor (pos 1) (some 0x3FF0000000000000) true

watching :
    (monitor.has_on_low_balance ≡ true) × (monitor.low_balance_threshold ≡ some 0x3FF0000000000000)
unfolding new_balance_monitor
watching = (refl, refl)

abbrev results : List (solvela_go.Errors.Result ℕ)
results = ok 0x4000000000000000 ∷ ok 0 ∷ err (foreign []) ∷ ok 0 ∷ ok 0x4000000000000000 ∷ []

run_polls_lem_example :
    (warnings (run_polls monitor results).1
      ≡ drops 0x3FF0000000000000 monitor.was_low (fetched results))
    × ((run_polls monitor results).0.balance ≡ latest monitor.balance (fetched results))
run_polls_lem_example = run_polls_lem 0x3FF0000000000000 monitor results watching

warned_once : warnings (run_polls monitor results).1 ≡ 0 ∷ []
unfolding run_polls new_balance_monitor less
warned_once = refl

abbrev settings : List Setting
settings = with_gateway_url gateway ∷ with_cache true ∷ []

abbrev made : NewClient
made = assemble (apply_all settings default_config) true (1 ∷ 2 ∷ [])

made_it : new_client lib true (inl (1 ∷ 2 ∷ [])) settings ≡ ok made
unfolding new_client validate_gateway_url codes bytes_eq
made_it = refl

-- Two calls, with a balance that is reported in between
abbrev lived : World
lived =
    (chat_stream lib (env (codes "Hi.")) made.client request
      (set_last_balance 3 (chat lib (env (codes "Hi.")) made.client request made.world).1)).1

living : Reach lib (env (codes "Hi.")) made.client made.world lived
living = later (later (later starts (chats request)) (reports 3)) (streams request)

client-IsSafe_example : IsSafe lib (env (codes "Hi.")) made.client lived
client-IsSafe_example =
    client-IsSafe lib (env (codes "Hi.")) true (inl (1 ∷ 2 ∷ [])) settings made lived made_it living
