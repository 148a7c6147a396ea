-- ===== src/Client/Degraded.antt =====
-- With the quality check on, no degraded response is returned or cached.
use solvela_go.Base.{
  Bytes, ℕ, zero, suc, ℤ, pos, ◌≡◌, sym, [], Bool, true, Option, none, some, List, inl, inr,
  Option-cases, if◌then◌else◌,
}
use mathlib.Core.Path.{subst}
use solvela_go.Errors.{Result, ok, err}
use solvela_go.Types.Chat.{ChatRequest, ChatResponse, ChatMessage}
use solvela_go.Cache.{ResponseCache}
use solvela_go.Cache.Contents.{AllResponses, Answered, get-AllResponses, put-AllResponses}
use solvela_go.Library.{Library}
use solvela_go.Client.{SolvelaClient}
use solvela_go.Client.Chat.{
  guarded_model, reason_of, retry_headers, quality_loop, with_retries, check_quality, with_cache,
  check_cache, into_cache, store_response, record_session, fetch_response, answer, chat,
}
use solvela_go.Client.Effects.{send_with_payment-Stays}
use solvela_go.Client.Steps.{look_up_session-Stays, record_session-Stays}
use solvela_go.Exec.{World, M, ◌>>=◌, pure, Environment, read_clock, note}
use solvela_go.Exec.Keeps.{Outcome, Contract, Contract-pure, Contract-raise, Contract-bind}

-- The quality check finds nothing wrong with the response.
abbrev pub IsGood : ChatResponse → Type 0
IsGood r = reason_of r ≡ none

abbrev pub HoldsGood : Option ResponseCache → Type 0
HoldsGood none = Unit
HoldsGood (some cache) = AllResponses IsGood cache

-- The cache holds only responses that pass the check.
abbrev pub IsClean : World → Type 0
IsClean w = HoldsGood w.cache

module _ (lib : Library) (env : Environment) (c : SolvelaClient) where
  abbrev pub Good : ChatResponse → World → Type 0
  Good r w = IsClean w × IsGood r

  abbrev Returns : M ChatResponse → Type 0
  Returns m = Contract IsClean m Good (λ _. IsClean)

  quality_loop-Good :
      (left : ℕ) (request : ChatRequest) (r : ChatResponse)
      → Returns (quality_loop lib env c left request r)
  unfolding quality_loop note
  quality_loop-Good zero request r = elim (Option-cases (reason_of r)) [
    | inl good ↦ rw (good, quality_loop) (Contract-pure r (λ w i. (i, good)))
    | inr (why, bad) ↦ rw (bad, quality_loop) (Contract-raise _ (λ w i. i))
  ]
  quality_loop-Good (suc left) request r = elim (Option-cases (reason_of r)) [
    | inl good ↦ rw (good, quality_loop) (Contract-pure r (λ w i. (i, good)))
    | inr (why, bad) ↦
        rw (bad, quality_loop)
          (Contract-bind _ _
            (send_with_payment-Stays lib env c IsClean (λ e w i. i) request retry_headers)
            λ r'. quality_loop-Good left request r')
  ]

  -- What the cache answers is good.
  abbrev Found : Option ChatResponse → World → Type 0
  Found found w = IsClean w × Answered IsGood found

  with_cache-Found :
      (key : ℕ) (cache : Option ResponseCache)
      → Contract
          (λ w. IsClean w × HoldsGood cache)
          (with_cache lib env c key cache)
          Found
          (λ _. IsClean)
  unfolding with_cache read_clock note ◌>>=◌
  with_cache-Found key none = Contract-pure none (λ w i. (i.0, tt))
  with_cache-Found key (some cache) = record {
    at = λ w (i, h). get-AllResponses IsGood cache key (env.clock w.history) h;
  }

  check_cache-Found :
      (model : Bytes) (messages : List ChatMessage)
      → Contract IsClean (check_cache lib env c model messages) Found (λ _. IsClean)
  unfolding check_cache
  check_cache-Found model messages = record { at = λ w i. (with_cache-Found _ w.cache).at w (i, i) }

  into_cache-Good :
      (key : ℕ) (r : ChatResponse) (cache : Option ResponseCache)
      → Contract
          (λ w. Good r w × HoldsGood cache)
          (into_cache lib env c key r cache)
          (λ _. Good r)
          (λ _. IsClean)
  unfolding into_cache read_clock note ◌>>=◌
  into_cache-Good key r none = Contract-pure tt (λ w i. i.0)
  into_cache-Good key r (some cache) = record {
    at = λ w ((i, good), h). (put-AllResponses IsGood cache key r _ _ good h, good);
  }

  store_response-Good :
      (model : Bytes) (messages : List ChatMessage) (r : ChatResponse)
      → Contract (Good r) (store_response lib env c model messages r) (λ _. Good r) (λ _. IsClean)
  unfolding store_response
  store_response-Good model messages r = record {
    at = λ w i. (into_cache-Good _ r w.cache).at w (i, i.0);
  }

  record_session-Good :
      (id model : Bytes) (messages : List ChatMessage) (r : ChatResponse)
      → Contract (Good r) (record_session lib env c id model messages) (λ _. Good r) (λ _. IsClean)
  unfolding note
  record_session-Good id model messages r = record {
    at = λ w i. either _ _ (
        (record_session-Stays lib env c (Good r) (λ t w i. i) (λ s w i. i) id model messages).at w
          i);
  }
    where
      either :
          (x : Result (Unit {0})) (w : World)
          → Outcome (λ _. Good r) (λ _. Good r) x w
          → Outcome (λ _. Good r) (λ _. IsClean) x w
      either (ok u) w o = o
      either (err e) w o = o.0

  -- The check is on, with `n` retries.
  module _ (n : ℕ) (enabled : c.config.enable_quality_check ≡ true)
      (retries : c.config.max_quality_retries ≡ pos n) where
    check_quality-Good :
        (request : ChatRequest) (r : ChatResponse) → Returns (check_quality lib env c request r)
    unfolding check_quality with_retries
    check_quality-Good request r =
        subst
          (λ (b : Bool).
            Returns
              (if b then with_retries lib env c c.config.max_quality_retries request r else pure r))
          (sym enabled)
          (subst (λ (m : ℤ). Returns (with_retries lib env c m request r)) (sym retries)
            (quality_loop-Good n request r))

    fetch_response-Good :
        (request : ChatRequest) (id model : Bytes)
        → Returns (fetch_response lib env c request id model)
    unfolding fetch_response note
    fetch_response-Good request id model =
        Contract-bind _ _ (send_with_payment-Stays lib env c IsClean (λ e w i. i) _ []) λ first.
          Contract-bind _ _ (check_quality-Good _ first) λ r.
            Contract-bind _ _ (store_response-Good model request.messages r) λ _.
              Contract-bind _ _ (record_session-Good id model request.messages r)
                λ _. Contract-pure r (λ w i. i)

    answer-Good :
        (request : ChatRequest) (id model : Bytes) (found : Option ChatResponse)
        → Contract (Found found) (answer lib env c request id model found) Good (λ _. IsClean)
    unfolding answer
    answer-Good request id model (some cached) = Contract-pure cached (λ w i. i)
    answer-Good request id model none = record {
      at = λ w i. (fetch_response-Good request id model).at w i.0;
    }

    -- With the quality check on and a number of retries that is not negative, `Chat` returns no
    -- degraded response, and puts none into a cache that holds none, whether it returns or fails.
    pub chat-Good :
        (request : ChatRequest) (w : World)
        → IsClean w
        → Outcome Good (λ _. IsClean) (chat lib env c request w).0 (chat lib env c request w).1
    unfolding chat note
    chat-Good request w i =
        (Contract-bind _ _
            (look_up_session-Stays lib env c IsClean (λ t w i. i) (λ s w i. i) request
              (guarded_model c.config request w))
            λ (id, model).
              Contract-bind _ _ (check_cache-Found model request.messages)
                λ found. answer-Good request id model found).at
          w i
