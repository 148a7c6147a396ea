-- ===== src/Tests/Crowds.antt =====
-- Two calls at once.
use solvela_go.Base.{Bytes, ℕ, ◌≡◌, refl, codes}
use solvela_go.Cache.Invariant.{new-IsValid}
use solvela_go.Client.Chat.{look_up_session, guarded_model, get_last_balance, check_cache}
use solvela_go.Client.WellFormed.{IsWellFormed}
use solvela_go.Client.Calls.{
  Process, acts, read_model, answer_process, chat_process, resume, update, Shared, Reach, starts,
  later, proceeds,
}
use solvela_go.Client.Calls.Together.{calls-IsWellFormed}
use solvela_go.Exec.{M}
use solvela_go.Tests.Fixtures.{lib, env, client, request, world}

formed : IsWellFormed world
unfolding solvela_go.Cache.new_response_cache_with_config
formed = record { cache = new-IsValid _ _ _; sessions = tt }

abbrev first : Shared
first = record { world = world; calls = λ i. chat_process lib (env (codes "Hi.")) client request }

-- What is left of a call behind its first step, and behind its second
abbrev behind_lookup : Bytes × Bytes → Process
behind_lookup (id, model) =
    acts (check_cache lib (env (codes "Hi.")) client model request.messages)
      λ found. answer_process lib (env (codes "Hi.")) client request id model found

abbrev behind_read : Bytes → Process
behind_read guarded =
    acts (look_up_session lib (env (codes "Hi.")) client request guarded) behind_lookup

abbrev read : M Bytes
read = read_model lib (env (codes "Hi.")) client request

abbrev look_up : M (Bytes × Bytes)
look_up = look_up_session lib (env (codes "Hi.")) client request request.model

abbrev second : Shared
second = record {
  world = (read first.world).1;
  calls = update first.calls 0 (resume (read first.world).0 behind_read);
}

abbrev third : Shared
third = record {
  world = (read second.world).1;
  calls = update second.calls 1 (resume (read second.world).0 behind_read);
}

-- Both calls have read the balance; now the first looks up its session.
abbrev fourth : Shared
fourth = record {
  world = (look_up third.world).1;
  calls = update third.calls 0 (resume (look_up third.world).0 behind_lookup);
}

interleaved : Reach first fourth
unfolding chat_process update resume read_model guarded_model get_last_balance
    solvela_go.Base.ℕ_discrete
interleaved =
    later
      (later (later starts (proceeds 0 read behind_read refl)) (proceeds 1 read behind_read refl))
      (proceeds 0 look_up behind_lookup refl)

calls-IsWellFormed_example : IsWellFormed fourth.world
calls-IsWellFormed_example =
    calls-IsWellFormed lib (env (codes "Hi.")) client (λ i. request) world formed interleaved
