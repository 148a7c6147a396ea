-- ===== src/Client/Chat.antt =====
-- client.go: `Chat`, step by step.
use solvela_go.Base.{
  Bytes, ℕ, zero, suc, ℤ, pos, negsuc, Bool, true, false, ◌&&◌, not, Option, none, some, List, [],
  ◌∷◌, ◌==◌, nat_eq, bytes_eq, if◌then◌else◌, codes,
}
use solvela_go.Errors.{DegradedReason, empty_content, quality_degraded, ok}
use solvela_go.Types.Chat.{Float64, ChatMessage, ChatRequest, ChatResponse, ChatChoice}
use solvela_go.Config.{ClientConfig}
use solvela_go.Floats.{is_zero}
use solvela_go.Keys.{cache_key, derive_session_id_with_salt}
use solvela_go.Quality.{check_degraded}
use solvela_go.Cache
use solvela_go.Cache.{ResponseCache}
use solvela_go.Sessions
use solvela_go.Sessions.{SessionStore, SessionInfo}
use solvela_go.Http.{Headers}
use solvela_go.Library.{Library}
use solvela_go.Client.{SolvelaClient, send_with_payment}
use solvela_go.Exec.{World, M, ◌>>=◌, pure, raise, Environment, read_clock}

-- `setLastBalance`
unfoldable pub set_last_balance : Float64 → World → World
set_last_balance b w = record w { last_balance = b; last_balance_set = true }

-- `getLastBalance`
unfoldable pub get_last_balance : World → Float64 × Bool
get_last_balance w = (w.last_balance, w.last_balance_set)

-- The choices' first text, or their absence, as the quality check reads them.
unfoldable pub reason_of_choices : List ChatChoice → Option DegradedReason
reason_of_choices [] = some empty_content
reason_of_choices (choice ∷ choices) = check_degraded choice.message.content

unfoldable pub reason_of : ChatResponse → Option DegradedReason
unfolding reason_of_choices
reason_of r = reason_of_choices r.choices

abbrev pub retry_headers : Headers
retry_headers = (codes "X-Solvela-Retry-Reason", codes "degraded") ∷ []

-- Step 1: the balance guard.
unfoldable pub guarded_model : ClientConfig → ChatRequest → World → Bytes
unfolding get_last_balance
guarded_model config request w =
    let (balance, known) = get_last_balance w in
    if known && is_zero balance && not (config.free_fallback_model == [])
    then config.free_fallback_model
    else request.model

module _ (lib : Library) (env : Environment) (c : SolvelaClient) where
  open c use {config}

  -- The two readings of `GetOrCreate`; a reading that it does not need changes nothing.
  -- Step 2: the session, and the model that it settles. The id is empty if sessions are disabled.
  unfoldable pub with_session :
      Bytes → ChatRequest → Bytes → Option SessionStore → M (Bytes × Bytes)
  with_session id request model none = pure ([], model)
  with_session id request model (some store) = do
    now ← read_clock env
    created ← read_clock env
    λ w.
        let (store', info) = Sessions.get_or_create store id model now created in
        (
          ok (id, if model == request.model then info.model else model),
          record w { session_store = some store' },
        )

  unfoldable pub look_up_session : ChatRequest → Bytes → M (Bytes × Bytes)
  look_up_session request model w =
      with_session (derive_session_id_with_salt lib c.session_salt request.messages) request model
        w.session_store w

  -- Step 3: the cache.
  unfoldable pub with_cache : ℕ → Option ResponseCache → M (Option ChatResponse)
  with_cache key none = pure none
  with_cache key (some cache) = do
    now ← read_clock env
    λ w.
        let (cache', found) = Cache.get cache key now in
        (ok found, record w { cache = some cache' })

  unfoldable pub check_cache : Bytes → List ChatMessage → M (Option ChatResponse)
  check_cache model messages w = with_cache (cache_key lib model messages) w.cache w

  -- Step 5: the quality check, with the retries that are left.
  unfoldable pub quality_loop : ℕ → ChatRequest → ChatResponse → M ChatResponse
  quality_loop zero request r = elim (reason_of r) [
    | none ↦ pure r
    | some why ↦ raise (quality_degraded why r)
  ]
  quality_loop (suc left) request r = elim (reason_of r) [
    | none ↦ pure r
    | some why ↦ do
      r' ← send_with_payment lib env c request retry_headers
      quality_loop left request r'
  ]

  -- A negative number of retries skips the loop, and with it the check.
  unfoldable pub with_retries : ℤ → ChatRequest → ChatResponse → M ChatResponse
  with_retries (pos n) request r = quality_loop n request r
  with_retries (negsuc n) request r = pure r

  unfoldable pub check_quality : ChatRequest → ChatResponse → M ChatResponse
  check_quality request r =
      if config.enable_quality_check
      then with_retries config.max_quality_retries request r
      else pure r

  -- Step 6: the cache is written.
  unfoldable pub into_cache : ℕ → ChatResponse → Option ResponseCache → M (Unit {0})
  into_cache key r none = pure tt
  into_cache key r (some cache) = do
    checked ← read_clock env
    stored ← read_clock env
    λ w. (ok tt, record w { cache = some (Cache.put cache key r checked stored) })

  unfoldable pub store_response : Bytes → List ChatMessage → ChatResponse → M (Unit {0})
  store_response model messages r w = into_cache (cache_key lib model messages) r w.cache w

  -- Step 7: the request is recorded.
  unfoldable pub into_session : Bytes → ℕ → Option SessionStore → M (Unit {0})
  into_session id hash none = pure tt
  into_session id hash (some store) = if id == [] then pure tt else λ w.
      (ok tt, record w { session_store = some (Sessions.record_request store id hash) })

  unfoldable pub record_session : Bytes → Bytes → List ChatMessage → M (Unit {0})
  record_session id model messages w =
      into_session id (cache_key lib model messages) w.session_store w

  -- Steps 4 to 7, for a request that the cache did not answer.
  unfoldable pub fetch_response : ChatRequest → Bytes → Bytes → M ChatResponse
  fetch_response request id model = do
    let effective = record request { model = model; stream = false }
    first ← send_with_payment lib env c effective []
    r ← check_quality effective first
    _ ← store_response model request.messages r
    _ ← record_session id model request.messages
    pure r

  -- What the cache answered, or the answer of the gateway.
  unfoldable pub answer : ChatRequest → Bytes → Bytes → Option ChatResponse → M ChatResponse
  answer request id model (some cached) = pure cached
  answer request id model none = fetch_response request id model

  -- `Chat`
  unfoldable pub chat : ChatRequest → M ChatResponse
  chat request w =
      (do
        (id, model) ← look_up_session request (guarded_model config request w)
        cached ← check_cache model request.messages
        answer request id model cached)
        w
