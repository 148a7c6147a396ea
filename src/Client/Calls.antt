-- ===== src/Client/Calls.antt =====
-- client.go: several calls of `Chat` at once. A call is a process of atomic steps: each operation of
-- a store, which holds a mutex, is one step, as is each exchange with the gateway, with the test of
-- the context that may follow it, and each call of the signer; between two steps of a call any
-- others may take theirs.
pub mod Alone
pub mod Together
use solvela_go.Base.{
  Bytes, ℕ, zero, suc, ℤ, pos, negsuc, Bool, true, false, Option, none, some, [], ◌≡◌, ◌==◌, nat_eq,
  if◌then◌else◌,
}
use solvela_go.Errors.{Error, Result, ok, err, quality_degraded}
use solvela_go.Types.Chat.{Float64, ChatRequest, ChatResponse}
use solvela_go.Http.{Headers}
use solvela_go.Library.{Library}
use solvela_go.Transport.{SendChatResult, response, payment_required, send_chat}
use solvela_go.Client.{SolvelaClient, probe, sign_payment_required, settled}
use solvela_go.Client.Chat.{
  guarded_model, look_up_session, check_cache, reason_of, retry_headers, store_response,
  record_session, set_last_balance,
}
use solvela_go.Exec.{World, M, ◌>>=◌, pure, raise, Environment}

pub data Process : Type 1 where
  returns : ChatResponse → Process
  fails : Error → Process
  acts : {A : Type 0} → M A → (A → Process) → Process

-- A process that no other interrupts
unfoldable pub run : Process → M ChatResponse
run (returns r) = pure r
run (fails e) = raise e
run (acts m next) = m >>= λ a. run (next a)

-- What is left of a process whose step gave that result
unfoldable pub resume : {A : Type 0} → Result A → (A → Process) → Process
resume (ok a) next = next a
resume (err e) next = fails e

module _ (lib : Library) (env : Environment) (c : SolvelaClient) where
  open c use {config}

  -- `sendWithPayment`, before `next`
  unfoldable pub pay_process :
      ChatRequest → Headers → SendChatResult → (ChatResponse → Process) → Process
  pay_process request extra (response r) next = next r
  pay_process request extra (payment_required pr) next =
      acts (sign_payment_required lib env c pr) λ signature.
        acts (send_chat lib env c.transport (probe request) signature extra)
          λ result. acts (settled result) next

  unfoldable pub send_process : ChatRequest → Headers → (ChatResponse → Process) → Process
  unfolding pay_process
  send_process request extra next =
      acts (send_chat lib env c.transport (probe request) [] extra)
        λ result. pay_process request extra result next

  -- The quality check
  unfoldable pub retry_process : ℕ → ChatRequest → ChatResponse → (ChatResponse → Process) → Process
  unfolding send_process
  retry_process zero request r next = elim (reason_of r) [
    | none ↦ next r
    | some why ↦ fails (quality_degraded why r)
  ]
  retry_process (suc left) request r next = elim (reason_of r) [
    | none ↦ next r
    | some why ↦ send_process request retry_headers λ r'. retry_process left request r' next
  ]

  unfoldable pub retries_process :
      ℤ → ChatRequest → ChatResponse → (ChatResponse → Process) → Process
  unfolding retry_process
  retries_process (pos n) request r next = retry_process n request r next
  retries_process (negsuc n) request r next = next r

  unfoldable pub quality_process : ChatRequest → ChatResponse → (ChatResponse → Process) → Process
  unfolding retries_process
  quality_process request r next =
      if config.enable_quality_check
      then retries_process config.max_quality_retries request r next
      else next r

  unfoldable pub keep_process : ChatRequest → Bytes → Bytes → ChatResponse → Process
  keep_process request id model r =
      acts (store_response lib env c model request.messages r)
        λ _. acts (record_session lib env c id model request.messages) λ _. returns r

  unfoldable pub answer_process : ChatRequest → Bytes → Bytes → Option ChatResponse → Process
  unfolding send_process quality_process keep_process
  answer_process request id model (some cached) = returns cached
  answer_process request id model none =
      let effective = record request { model = model; stream = false } in
      send_process effective []
        λ first. quality_process effective first λ r. keep_process request id model r

  -- The balance guard reads the balance in one step.
  unfoldable pub read_model : ChatRequest → M Bytes
  read_model request w = (ok (guarded_model config request w), w)

  -- `Chat`
  unfoldable pub chat_process : ChatRequest → Process
  unfolding answer_process
  chat_process request = acts (read_model request) λ guarded.
      acts (look_up_session lib env c request guarded) λ (id, model).
        acts (check_cache lib env c model request.messages)
          λ found. answer_process request id model found

-- The client's fields, and the calls in progress, by number.
pub record Shared : Type 1 where
  pub world : World
  pub calls : ℕ → Process

unfoldable pub update : (ℕ → Process) → ℕ → Process → ℕ → Process
update calls i p j = if i == j then p else calls j

pub data Step (s : Shared) : Shared → Type 1 where
  proceeds :
      (i : ℕ) {A : Type 0} (m : M A) (next : A → Process)
      → s.calls i ≡ acts m next
      → Step s
          (record { world = (m s.world).1; calls = update s.calls i (resume (m s.world).0 next) })
  reports : (balance : Float64) → Step s (record s { world = set_last_balance balance s.world })

pub data Reach (first : Shared) : Shared → Type 1 where
  starts : Reach first first
  later : {s t : Shared} → Reach first s → Step s t → Reach first t
