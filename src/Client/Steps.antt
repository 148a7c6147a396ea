-- ===== src/Client/Steps.antt =====
-- The steps of `Chat` that stay inside the client: they read the clock and do nothing else outside,
-- so they keep every property of the world that reading the clock and writing the store keep.
use solvela_go.Base.{Bytes, ℕ, Option, none, some, List, [], inl, inr, ◌==◌, bytes_eq, Bool-cases}
use solvela_go.Types.Chat.{ChatRequest, ChatResponse, ChatMessage}
use solvela_go.Clock.{Time}
use solvela_go.Cache.{ResponseCache}
use solvela_go.Sessions.{SessionStore}
use solvela_go.Library.{Library}
use solvela_go.Client.{SolvelaClient}
use solvela_go.Client.Chat.{
  with_session, look_up_session, with_cache, check_cache, into_cache, store_response, into_session,
  record_session,
}
use solvela_go.Exec.{World, M, Environment, clock_read, note, read_clock}
use solvela_go.Exec.Keeps.{Contract, Contract-pure, Contract-bind}

module _ {ℓ} (env : Environment) (I : World → Type ℓ)
    (quiet : (t : Time) (w : World) → I w → I (note (clock_read t) w)) where
  pub read_clock-Stays : Contract I (read_clock env) (λ _. I) (λ _. I)
  unfolding read_clock
  read_clock-Stays = record { at = λ w i. quiet (env.clock w.history) w i }

module _ {ℓ} (lib : Library) (env : Environment) (c : SolvelaClient) (I : World → Type ℓ)
    (quiet : (t : Time) (w : World) → I w → I (note (clock_read t) w))
    (written : (s : Option SessionStore) (w : World)
      → I w
      → I (record w { session_store = s })) where
  abbrev Stays {κ} : {A : Type κ} → M A → Type (ℓ ⊔ κ)
  Stays m = Contract I m (λ _. I) (λ _. I)

  with_session-Stays :
      (id : Bytes) (request : ChatRequest) (model : Bytes) (store : Option SessionStore)
      → Stays (with_session lib env c id request model store)
  unfolding with_session
  with_session-Stays id request model none = Contract-pure _ (λ w i. i)
  with_session-Stays id request model (some store) =
      Contract-bind _ _ (read_clock-Stays env I quiet) λ now.
        Contract-bind _ _ (read_clock-Stays env I quiet)
          λ created. record { at = λ w i. written _ w i }

  pub look_up_session-Stays :
      (request : ChatRequest) (model : Bytes) → Stays (look_up_session lib env c request model)
  unfolding look_up_session
  look_up_session-Stays request model = record {
    at = λ w i. (with_session-Stays _ request model w.session_store).at w i;
  }

  into_session-Stays :
      (id : Bytes) (hash : ℕ) (store : Option SessionStore)
      → Stays (into_session lib env c id hash store)
  unfolding into_session
  into_session-Stays id hash none = Contract-pure _ (λ w i. i)
  into_session-Stays id hash (some store) = elim (Bool-cases (id == [])) [
    | inl empty ↦ rw empty (Contract-pure _ (λ w i. i))
    | inr set ↦ rw set (record { at = λ w i. written _ w i })
  ]

  pub record_session-Stays :
      (id model : Bytes) (messages : List ChatMessage)
      → Stays (record_session lib env c id model messages)
  unfolding record_session
  record_session-Stays id model messages = record {
    at = λ w i. (into_session-Stays id _ w.session_store).at w i;
  }

module _ {ℓ} (lib : Library) (env : Environment) (c : SolvelaClient) (I : World → Type ℓ)
    (quiet : (t : Time) (w : World) → I w → I (note (clock_read t) w))
    (written : (s : Option ResponseCache) (w : World) → I w → I (record w { cache = s })) where
  abbrev Remains {κ} : {A : Type κ} → M A → Type (ℓ ⊔ κ)
  Remains m = Contract I m (λ _. I) (λ _. I)

  with_cache-Stays :
      (key : ℕ) (cache : Option ResponseCache) → Remains (with_cache lib env c key cache)
  unfolding with_cache
  with_cache-Stays key none = Contract-pure _ (λ w i. i)
  with_cache-Stays key (some cache) =
      Contract-bind _ _ (read_clock-Stays env I quiet) λ now. record { at = λ w i. written _ w i }

  pub check_cache-Stays :
      (model : Bytes) (messages : List ChatMessage) → Remains (check_cache lib env c model messages)
  unfolding check_cache
  check_cache-Stays model messages = record { at = λ w i. (with_cache-Stays _ w.cache).at w i }

  into_cache-Stays :
      (key : ℕ) (r : ChatResponse) (cache : Option ResponseCache)
      → Remains (into_cache lib env c key r cache)
  unfolding into_cache
  into_cache-Stays key r none = Contract-pure _ (λ w i. i)
  into_cache-Stays key r (some cache) = Contract-bind _ _ (read_clock-Stays env I quiet) λ checked.
      Contract-bind _ _ (read_clock-Stays env I quiet)
        λ stored. record { at = λ w i. written _ w i }

  pub store_response-Stays :
      (model : Bytes) (messages : List ChatMessage) (r : ChatResponse)
      → Remains (store_response lib env c model messages r)
  unfolding store_response
  store_response-Stays model messages r = record {
    at = λ w i. (into_cache-Stays _ r w.cache).at w i;
  }
