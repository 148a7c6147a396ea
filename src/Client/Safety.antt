-- ===== src/Client/Safety.antt =====
-- No call of `Chat` lets a payment or a signature out that should not be.
use solvela_go.Base.{Bytes, ℤ, pos, negsuc, Option, none, some}
use solvela_go.Errors.{Result, ok, err}
use solvela_go.Types.Chat.{ChatRequest, ChatResponse}
use solvela_go.Library.{Library}
use solvela_go.Client.{SolvelaClient}
use solvela_go.Client.Chat.{
  guarded_model, with_retries, check_quality, fetch_response, answer, chat,
}
use solvela_go.Client.Signatures.{
  IsSound, none-IsHarmless, send_with_payment-Sound, quality_loop-Sound,
}
use solvela_go.Client.Steps.{
  look_up_session-Stays, check_cache-Stays, store_response-Stays, record_session-Stays,
}
use solvela_go.Exec.{World, M, Environment, note}
use solvela_go.Exec.Keeps.{Outcome, Contract, Contract-pure, Contract-if, Contract-bind}

module _ (lib : Library) (env : Environment) (c : SolvelaClient) where
  abbrev pub KeepsSound : {A : Type 0} → M A → Type 0
  KeepsSound m =
      Contract (λ w. IsSound lib c w.history) m (λ _ w. IsSound lib c w.history)
        (λ _ w. IsSound lib c w.history)

  with_retries-Sound :
      (n : ℤ) (request : ChatRequest) (r : ChatResponse)
      → KeepsSound (with_retries lib env c n request r)
  unfolding with_retries
  with_retries-Sound (pos n) request r = quality_loop-Sound lib env c n request r
  with_retries-Sound (negsuc n) request r = Contract-pure r (λ w s. s)

  check_quality-Sound :
      (request : ChatRequest) (r : ChatResponse) → KeepsSound (check_quality lib env c request r)
  unfolding check_quality
  check_quality-Sound request r =
      Contract-if c.config.enable_quality_check _ _
        (λ _. with_retries-Sound c.config.max_quality_retries request r)
        (λ _. Contract-pure r (λ w s. s))

  fetch_response-Sound :
      (request : ChatRequest) (id model : Bytes)
      → KeepsSound (fetch_response lib env c request id model)
  unfolding fetch_response note
  fetch_response-Sound request id model =
      Contract-bind _ _ (send_with_payment-Sound lib env c _ _ none-IsHarmless) λ first.
        Contract-bind _ _ (check_quality-Sound _ first) λ r.
          Contract-bind _ _
            (store_response-Stays lib env c (λ w. IsSound lib c w.history) (λ t w s. (tt, s))
              (λ _ w s. s) model request.messages r)
            λ _.
              Contract-bind _ _
                (record_session-Stays lib env c (λ w. IsSound lib c w.history) (λ t w s. (tt, s))
                  (λ _ w s. s) id model request.messages)
                λ _. Contract-pure r (λ w s. s)

  answer-Sound :
      (request : ChatRequest) (id model : Bytes) (found : Option ChatResponse)
      → KeepsSound (answer lib env c request id model found)
  unfolding answer
  answer-Sound request id model (some cached) = Contract-pure cached (λ w s. s)
  answer-Sound request id model none = fetch_response-Sound request id model

  chat-Contract : (request : ChatRequest) → KeepsSound (chat lib env c request)
  unfolding chat note
  chat-Contract request = record {
    at = λ w s.
        (Contract-bind _ _
            (look_up_session-Stays lib env c (λ w. IsSound lib c w.history) (λ t w k. (tt, k))
              (λ _ w k. k) request (guarded_model c.config request w))
            λ (id, model).
              Contract-bind _ _
                (check_cache-Stays lib env c (λ w. IsSound lib c w.history) (λ t w k. (tt, k))
                  (λ _ w k. k) model request.messages)
                λ found. answer-Sound request id model found).at
          w s;
  }

  pub after_action :
      {A : Type 0} (m : M A) (w : World)
      → KeepsSound m
      → IsSound lib c w.history
      → IsSound lib c (m w).1.history
  after_action m w k s = outcome_sound (m w).0 (m w).1 (k.at w s)
    where
      outcome_sound :
          {A : Type 0} (r : Result A) (v : World)
          → Outcome (λ _ u. IsSound lib c u.history) (λ _ u. IsSound lib c u.history) r v
          → IsSound lib c v.history
      outcome_sound (ok a) v o = o
      outcome_sound (err e) v o = o

  -- Whatever the gateway, the clock and the signer answer, and whether the call returns or fails:
  -- after a call of `Chat`, as before it, the signer was only asked for payments that the
  -- configuration allows, and a request carried a Payment-Signature only if the signer had given it
  -- before.
  pub chat-IsSound :
      (request : ChatRequest) (w : World)
      → IsSound lib c w.history
      → IsSound lib c (chat lib env c request w).1.history
  chat-IsSound request w s = after_action (chat lib env c request) w (chat-Contract request) s
