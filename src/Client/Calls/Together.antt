-- ===== src/Client/Calls/Together.antt =====
-- Calls whose steps are interleaved in any order.
use solvela_go.Base.{
  Bytes, ℕ, zero, suc, ℤ, pos, negsuc, Bool, true, false, Option, none, some, ◌==◌, nat_eq, inl,
  inr, Bool-cases, Option-cases, if◌then◌else◌,
}
use mathlib.Core.Path.{subst}
use solvela_go.Errors.{Result, ok, err}
use solvela_go.Types.Chat.{ChatRequest, ChatResponse}
use solvela_go.Http.{Headers}
use solvela_go.Library.{Library}
use solvela_go.Transport.{SendChatResult, response, payment_required}
use solvela_go.Client.{SolvelaClient}
use solvela_go.Client.Chat.{reason_of, set_last_balance}
use solvela_go.Client.Effects.{send_chat-Stays, sign_payment_required-Stays, settled-Stays}
use solvela_go.Client.WellFormed.{
  IsWellFormed, Stays, noted, look_up_session-Stays, check_cache-Stays, store_response-Stays,
  record_session-Stays,
}
use solvela_go.Client.Calls.{
  Process, returns, fails, acts, resume, pay_process, send_process, retry_process, retries_process,
  quality_process, keep_process, answer_process, read_model, chat_process, Shared, update, Step,
  proceeds, reports, Reach, starts, later,
}
use solvela_go.Exec.{World, Environment}
use solvela_go.Exec.Effort.{unconditional}

-- Each step of the process leaves the stores well formed.
Keeps : Process → Type 0
Keeps (returns r) = Unit
Keeps (fails e) = Unit
Keeps (acts {A} m next) = Stays m × ((a : A) → Keeps (next a))

resume-Keeps :
    {A : Type 0} (r : Result A) (next : A → Process)
    → ((a : A) → Keeps (next a))
    → Keeps (resume r next)
unfolding resume Keeps
resume-Keeps (ok a) next k = k a
resume-Keeps (err e) next k = tt

module _ (lib : Library) (env : Environment) (c : SolvelaClient) where
  pay_process-Keeps :
      (request : ChatRequest) (extra : Headers) (r : SendChatResult) (next : ChatResponse → Process)
      → ((x : ChatResponse) → Keeps (next x))
      → Keeps (pay_process lib env c request extra r next)
  unfolding pay_process Keeps
  pay_process-Keeps request extra (response r) next k = k r
  pay_process-Keeps request extra (payment_required pr) next k = (
    sign_payment_required-Stays lib env c IsWellFormed noted pr,
    λ signature. (
      send_chat-Stays lib env c IsWellFormed noted _ signature extra,
      λ result. (settled-Stays lib env c IsWellFormed noted result, k),
    ),
  )

  send_process-Keeps :
      (request : ChatRequest) (extra : Headers) (next : ChatResponse → Process)
      → ((x : ChatResponse) → Keeps (next x))
      → Keeps (send_process lib env c request extra next)
  unfolding send_process Keeps
  send_process-Keeps request extra next k = (
    send_chat-Stays lib env c IsWellFormed noted _ _ extra,
    λ r. pay_process-Keeps request extra r next k,
  )

  retry_process-Keeps :
      (left : ℕ) (request : ChatRequest) (r : ChatResponse) (next : ChatResponse → Process)
      → ((x : ChatResponse) → Keeps (next x))
      → Keeps (retry_process lib env c left request r next)
  unfolding retry_process Keeps
  retry_process-Keeps zero request r next k = elim (Option-cases (reason_of r)) [
    | inl good ↦ rw (good, retry_process) (k r)
    | inr (why, bad) ↦ rw (bad, retry_process) tt
  ]
  retry_process-Keeps (suc left) request r next k = elim (Option-cases (reason_of r)) [
    | inl good ↦ rw (good, retry_process) (k r)
    | inr (why, bad) ↦
        rw (bad, retry_process)
          (send_process-Keeps request _ _ (λ r'. retry_process-Keeps left request r' next k))
  ]

  retries_process-Keeps :
      (n : ℤ) (request : ChatRequest) (r : ChatResponse) (next : ChatResponse → Process)
      → ((x : ChatResponse) → Keeps (next x))
      → Keeps (retries_process lib env c n request r next)
  unfolding retries_process
  retries_process-Keeps (pos n) request r next k = retry_process-Keeps n request r next k
  retries_process-Keeps (negsuc n) request r next k = k r

  quality_process-Keeps :
      (request : ChatRequest) (r : ChatResponse) (next : ChatResponse → Process)
      → ((x : ChatResponse) → Keeps (next x))
      → Keeps (quality_process lib env c request r next)
  unfolding quality_process
  quality_process-Keeps request r next k =
      if_Keeps c.config.enable_quality_check _ _
        (retries_process-Keeps c.config.max_quality_retries request r next k) (k r)
    where
      if_Keeps : (b : Bool) (p q : Process) → Keeps p → Keeps q → Keeps (if b then p else q)
      if_Keeps true p q kp kq = kp
      if_Keeps false p q kp kq = kq

  answer_process-Keeps :
      (request : ChatRequest) (id model : Bytes) (found : Option ChatResponse)
      → Keeps (answer_process lib env c request id model found)
  unfolding answer_process keep_process Keeps
  answer_process-Keeps request id model (some r) = tt
  answer_process-Keeps request id model none =
      send_process-Keeps (record request { model = model; stream = false }) _ _
        λ first. quality_process-Keeps _ first _ λ r. (
          store_response-Stays lib env c model request.messages r,
          λ _. (record_session-Stays lib env c id model request.messages, λ _. tt),
        )

  chat_process-Keeps : (request : ChatRequest) → Keeps (chat_process lib env c request)
  unfolding chat_process read_model Keeps
  chat_process-Keeps request = (
    record { at = λ w i. i },
    λ guarded. (
      look_up_session-Stays lib env c request guarded,
      λ (id, model). (
        check_cache-Stays lib env c model request.messages,
        λ found. answer_process-Keeps request id model found,
      ),
    ),
  )

record IsKept (s : Shared) : Type 0 where
  formed : IsWellFormed s.world
  calls : (i : ℕ) → Keeps (s.calls i)

Step-IsKept : (s : Shared) {t : Shared} → Step s t → IsKept s → IsKept t
unfolding update Keeps set_last_balance
Step-IsKept s (reports balance) k = record {
  formed = record { cache = k.formed.cache; sessions = k.formed.sessions };
  calls = k.calls;
}
Step-IsKept s (proceeds i m next here) k =
    let (stays, rest) = subst Keeps here (k.calls i) in
    record {
      formed = unconditional IsWellFormed (m s.world).0 (m s.world).1 (stays.at s.world k.formed);
      calls = λ j. elim (Bool-cases (i == j)) [
        | inl same ↦ rw (same) (resume-Keeps (m s.world).0 next rest)
        | inr other ↦ rw (other) (k.calls j)
      ];
    }

Reach-IsKept : (first : Shared) {s : Shared} → IsKept first → Reach first s → IsKept s
Reach-IsKept first k starts = k
Reach-IsKept first k (later {s} r step) = Step-IsKept s step (Reach-IsKept first k r)

-- Any number of calls of `Chat` that run at once, their steps interleaved in any order with one
-- another and with reports of balances, leave the stores of a client well formed at every moment, if
-- they were so at first: the cache is valid and within its bound, the sessions have distinct ids.
pub calls-IsWellFormed :
    (lib : Library) (env : Environment) (c : SolvelaClient) (requests : ℕ → ChatRequest) (w : World)
    {s : Shared}
    → IsWellFormed w
    → Reach (record { world = w; calls = λ i. chat_process lib env c (requests i) }) s
    → IsWellFormed s.world
calls-IsWellFormed lib env c requests w formed r =
    (Reach-IsKept _
      (record { formed = formed; calls = λ i. chat_process-Keeps lib env c (requests i) }) r).formed
