-- ===== src/Client/Fallback.antt =====
-- The model of a conversation that begins while the balance is zero.
pub mod Lasting
use solvela_go.Base.{
  Bytes, ℕ, ◌≡◌, refl, sym, ap, ◌∙◌, true, false, Option, none, some, [], ◌==◌, nat_eq, bytes_eq,
  inl, inr, Bool-cases, arith,
}
use mathlib.Core.Path.{subst}
use solvela_go.Errors.{ok}
use solvela_go.Types.Chat.{Float64, ChatRequest, ChatResponse}
use solvela_go.Clock.{is_older}
use solvela_go.Floats.{is_zero}
use solvela_go.Keys.{cache_key}
use solvela_go.Cache.{ResponseCache}
use solvela_go.Maps.{lookup}
use solvela_go.Sessions.{SessionStore, SessionEntry, record_hash, get_or_create, record_request}
use solvela_go.Sessions.Store.{
  if_same, get_or_create_lem, get_or_create-found, current, lookup-record_request,
}
use solvela_go.Library.{Library}
use solvela_go.Client.{SolvelaClient}
use solvela_go.Client.Chat.{
  get_last_balance, set_last_balance, guarded_model, with_session, look_up_session, into_session,
  record_session, fetch_response, answer, chat,
}
use solvela_go.Client.Repeated.{session_id}
use solvela_go.Client.Effects.{send_with_payment-Stays, check_quality-Stays}
use solvela_go.Client.Steps.{check_cache-Stays, store_response-Stays}
use solvela_go.Exec.{World, clock_read, M, ◌>>=◌, pure, Environment, Event, note, read_clock}
use solvela_go.Exec.Effort.{unconditional}
use solvela_go.Exec.Keeps.{Outcome, Contract, Contract-pure, Contract-bind, Contract-at}

-- The sessions hold one of that id, with that model.
pub record IsPinned (id model : Bytes) (w : World) : Type 0 where
  pub store : SessionStore
  pub entry : SessionEntry
  pub stored : w.session_store ≡ some store
  pub held : lookup id store.sessions ≡ some entry
  pub pinned : entry.model ≡ model

-- A lookup of a session that is not there stores the model that it is given.
get_or_create-IsPinned :
    (s : SessionStore) (id model : Bytes) (now created : ℕ) (w : World)
    → lookup id s.sessions ≡ none
    → w.session_store ≡ some (get_or_create s id model now created).0
    → IsPinned id model w
unfolding current
get_or_create-IsPinned s id model now created w missing stored =
    let (info, after) = get_or_create_lem s id model now created in
    record {
      store = _;
      entry = _;
      stored = stored;
      held = after id ∙ if_same id _ _;
      pinned = rw (missing) refl;
    }

record_request-IsPinned :
    (id model id' : Bytes) (hash : ℕ) (w v : World) (i : IsPinned id model w)
    → v.session_store ≡ some (record_request i.store id' hash)
    → IsPinned id model v
unfolding record_hash
record_request-IsPinned id model id' hash w v i stored = elim (Bool-cases (id' == id)) [
  | inl here ↦
      let named : id' ≡ id = ground arith in
      record {
        store = _;
        entry = record_hash hash i.entry;
        stored = stored;
        held = lookup-record_request i.store id' id hash ∙ rw (here, named, i.held) refl;
        pinned = i.pinned;
      }
  | inr other ↦ record {
    store = _;
    entry = i.entry;
    stored = stored;
    held = lookup-record_request i.store id' id hash ∙ rw (other) i.held;
    pinned = i.pinned;
  }
]

module _ (lib : Library) (env : Environment) (c : SolvelaClient) (request : ChatRequest)
    (id model : Bytes) where
  abbrev Stays : {A : Type 0} → M A → Type 0
  Stays m = Contract (IsPinned id model) m (λ _. IsPinned id model) (λ _. IsPinned id model)

  noted : (e : Event) (w : World) → IsPinned id model w → IsPinned id model (note e w)
  unfolding note
  noted e w i = record {
    store = i.store;
    entry = i.entry;
    stored = i.stored;
    held = i.held;
    pinned = i.pinned;
  }

  cached :
      (cache : Option ResponseCache) (w : World)
      → IsPinned id model w
      → IsPinned id model (record w { cache = cache })
  cached cache w i = record {
    store = i.store;
    entry = i.entry;
    stored = i.stored;
    held = i.held;
    pinned = i.pinned;
  }

  into_session-Stays :
      (id' : Bytes) (hash : ℕ) (w : World) (i : IsPinned id model w)
      → let o = into_session lib env c id' hash (some i.store) w in
        Outcome (λ _. IsPinned id model) (λ _. IsPinned id model) o.0 o.1
  unfolding into_session pure
  into_session-Stays id' hash w i = elim (Bool-cases (id' == [])) [
    | inl empty ↦ rw (empty) i
    | inr named ↦ rw (named) (record_request-IsPinned id model id' hash w _ i refl)
  ]

  record_session-Stays :
      (id' model' : Bytes) → Stays (record_session lib env c id' model' request.messages)
  unfolding record_session
  record_session-Stays id' model' = record {
    at = λ w i.
        subst
          (λ store.
            let o = into_session lib env c id' (cache_key lib model' request.messages) store w in
            Outcome (λ _. IsPinned id model) (λ _. IsPinned id model) o.0 o.1)
          (sym i.stored) (into_session-Stays id' (cache_key lib model' request.messages) w i);
  }

  answer-Stays :
      (id' model' : Bytes) (found : Option ChatResponse)
      → Stays (answer lib env c request id' model' found)
  unfolding answer fetch_response
  answer-Stays id' model' (some r) = Contract-pure r (λ w i. i)
  answer-Stays id' model' none =
      Contract-bind _ _ (send_with_payment-Stays lib env c _ noted _ _) λ first.
        Contract-bind _ _ (check_quality-Stays lib env c _ noted _ first) λ r.
          Contract-bind _ _
            (store_response-Stays lib env c (IsPinned id model) (λ t. noted (clock_read t)) cached
              model' request.messages r)
            λ _. Contract-bind _ _ (record_session-Stays id' model') λ _. Contract-pure r (λ w i. i)

module _ (lib : Library) (env : Environment) (c : SolvelaClient) where
  open c use {config}

  with_session-IsPinned :
      (id : Bytes) (request : ChatRequest) (model : Bytes) (s : SessionStore) (w : World)
      → lookup id s.sessions ≡ none
      → let o = with_session lib env c id request model (some s) w in
        Outcome (λ _. IsPinned id model) (λ _. IsPinned id model) o.0 o.1
  unfolding with_session read_clock ◌>>=◌
  with_session-IsPinned id request model s w missing =
      get_or_create-IsPinned s id model _ _ _ missing refl

  look_up_session-IsPinned :
      (request : ChatRequest) (model : Bytes) (w : World) (s : SessionStore)
      → w.session_store ≡ some s
      → lookup (session_id lib c request) s.sessions ≡ none
      → let o = look_up_session lib env c request model w in
        Outcome
          (λ _. IsPinned (session_id lib c request) model)
          (λ _. IsPinned (session_id lib c request) model)
          o.0
          o.1
  unfolding look_up_session
  look_up_session-IsPinned request model w s stored missing =
      subst
        (λ store.
          let o = with_session lib env c (session_id lib c request) request model store w in
          Outcome (λ _. IsPinned (session_id lib c request) model)
            (λ _. IsPinned (session_id lib c request) model) o.0 o.1)
        (sym stored) (with_session-IsPinned (session_id lib c request) request model s w missing)

  -- What is pinned once the session is looked up stays so for the rest of the call.
  pub chat-pins :
      (id model : Bytes) (request : ChatRequest) (w : World)
      → (let o = look_up_session lib env c request (guarded_model config request w) w in
          Outcome (λ _. IsPinned id model) (λ _. IsPinned id model) o.0 o.1)
      → IsPinned id model (chat lib env c request w).1
  unfolding chat
  chat-pins id model request w looked_up =
      unconditional (IsPinned id model) (chat lib env c request w).0 (chat lib env c request w).1 (
        (Contract-bind _ _
            (Contract-at (look_up_session lib env c request (guarded_model config request w))
              (λ _. IsPinned id model) (λ _. IsPinned id model) w looked_up)
            λ (id', model').
              Contract-bind _ _
                (check_cache-Stays lib env c (IsPinned id model)
                  (λ t. noted lib env c request id model (clock_read t))
                  (cached lib env c request id model) model' request.messages)
                λ found. answer-Stays lib env c request id model id' model' found).at
          w refl)

  pub chat-IsPinned :
      (request : ChatRequest) (w : World) (s : SessionStore)
      → w.session_store ≡ some s
      → lookup (session_id lib c request) s.sessions ≡ none
      → IsPinned
          (session_id lib c request)
          (guarded_model config request w)
          (chat lib env c request w).1
  chat-IsPinned request w s stored missing =
      chat-pins (session_id lib c request) (guarded_model config request w) request w
        (look_up_session-IsPinned request (guarded_model config request w) w s stored missing)

  -- A lookup that finds the session answers with its model, unless the balance guard overrides.
  with_session-pinned :
      (id model : Bytes) (request : ChatRequest) (w : World) (i : IsPinned id model w)
      → is_older (env.clock w.history) i.entry.created i.store.ttl ≡ false
      → (with_session lib env c id request request.model (some i.store) w).0 ≡ ok (id, model)
  unfolding with_session read_clock note ◌>>=◌ pure
  with_session-pinned id model request w i young =
      ap (λ m. ok (id, m))
        (if_same request.model _ _
          ∙ get_or_create-found i.store id request.model _ _ i.entry i.held young
          ∙ i.pinned)

  pub look_up_session-pinned :
      (id model guarded : Bytes) (request : ChatRequest) (w : World) (i : IsPinned id model w)
      → session_id lib c request ≡ id
      → guarded ≡ request.model
      → is_older (env.clock w.history) i.entry.created i.store.ttl ≡ false
      → (look_up_session lib env c request guarded w).0 ≡ ok (session_id lib c request, model)
  unfolding look_up_session
  look_up_session-pinned id model guarded request w i same free young =
      rw (same, free)
        (subst
          (λ store. (with_session lib env c id request request.model store w).0 ≡ ok (id, model))
          (sym i.stored) (with_session-pinned id model request w i young))
