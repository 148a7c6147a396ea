-- ===== src/Client/Failed.antt =====
-- What a call of `Chat` that fails leaves behind.
use solvela_go.Base.{
  Bytes, ℕ, ◌≡◌, refl, sym, ap, ◌∙◌, Option, none, some, List, [], ◌==◌, bytes_eq, inl, inr,
  Bool-cases,
}
use mathlib.Core.Option
use mathlib.Core.Path.{subst}
use solvela_go.Errors.{Error, err}
use solvela_go.Types.Chat.{ChatRequest, ChatResponse, ChatMessage}
use solvela_go.Clock.{Time}
use solvela_go.Keys.{cache_key, derive_session_id_with_salt}
use solvela_go.Cache
use solvela_go.Cache.{ResponseCache}
use solvela_go.Sessions
use solvela_go.Sessions.{SessionStore}
use solvela_go.Library.{Library}
use solvela_go.Client.{SolvelaClient}
use solvela_go.Client.Chat.{
  guarded_model, with_session, look_up_session, with_cache, check_cache, into_cache, store_response,
  into_session, record_session, fetch_response, answer, chat,
}
use solvela_go.Client.Effects.{send_with_payment-Stays, check_quality-Stays}
use solvela_go.Exec.{World, ◌>>=◌, pure, Environment, Event, note, read_clock}
use solvela_go.Exec.Keeps.{Outcome, Contract, Contract-pure, Contract-bind, Contract-at}

-- The stores after the lookup of the session and one read of the cache, and nothing else: the
-- session as its lookup left it, the cache as that read left it, and the balance as it was.
pub record IsRead (lib : Library) (id model : Bytes) (messages : List ChatMessage)
    (before after : World) : Type 0 where
  pub now : Time
  pub created : Time
  pub read : Time
  -- the model that the session settled
  pub settled_model : Bytes
  pub sessions :
      after.session_store
      ≡ Option.map (λ s. (Sessions.get_or_create s id model now created).0) before.session_store
  pub cached :
      after.cache
      ≡ Option.map (λ c. (Cache.get c (cache_key lib settled_model messages) read).0) before.cache
  pub balance : after.last_balance ≡ before.last_balance
  pub balance_set : after.last_balance_set ≡ before.last_balance_set

-- After the lookup alone.
record IsLookedUp (id model : Bytes) (before after : World) : Type 0 where
  now : Time
  created : Time
  sessions :
      after.session_store
      ≡ Option.map (λ s. (Sessions.get_or_create s id model now created).0) before.session_store
  cached : after.cache ≡ before.cache
  balance : after.last_balance ≡ before.last_balance
  balance_set : after.last_balance_set ≡ before.last_balance_set

module _ (lib : Library) (env : Environment) (c : SolvelaClient) (E : Error → World → Type 0) where
  with_session-IsLookedUp :
      (id : Bytes) (request : ChatRequest) (model : Bytes) (store : Option SessionStore) (w : World)
      → w.session_store ≡ store
      → Outcome
          (λ _. IsLookedUp id model w)
          E
          (with_session lib env c id request model store w).0
          (with_session lib env c id request model store w).1
  unfolding with_session read_clock note ◌>>=◌ pure
  with_session-IsLookedUp id request model none w same = record {
    now = 0;
    created = 0;
    sessions = same ∙ sym (ap (Option.map _) same);
    cached = refl;
    balance = refl;
    balance_set = refl;
  }
  with_session-IsLookedUp id request model (some store) w same = record {
    now = _;
    created = _;
    sessions = sym (ap (Option.map _) same);
    cached = refl;
    balance = refl;
    balance_set = refl;
  }

  with_cache-IsRead :
      (id model settled_model : Bytes) (messages : List ChatMessage) (store : Option ResponseCache)
      (before w : World)
      → IsLookedUp id model before w
      → w.cache ≡ store
      → Outcome
          (λ _. IsRead lib id model messages before)
          E
          (with_cache lib env c (cache_key lib settled_model messages) store w).0
          (with_cache lib env c (cache_key lib settled_model messages) store w).1
  unfolding with_cache read_clock note ◌>>=◌ pure
  with_cache-IsRead id model settled_model messages none before w i same = record {
    now = i.now;
    created = i.created;
    read = 0;
    settled_model = settled_model;
    sessions = i.sessions;
    cached = same ∙ sym (ap (Option.map _) (sym i.cached ∙ same));
    balance = i.balance;
    balance_set = i.balance_set;
  }
  with_cache-IsRead id model settled_model messages (some store) before w i same = record {
    now = i.now;
    created = i.created;
    read = _;
    settled_model = settled_model;
    sessions = i.sessions;
    cached = sym (ap (Option.map _) (sym i.cached ∙ same));
    balance = i.balance;
    balance_set = i.balance_set;
  }

  -- The last two steps never fail.
  into_cache-returns :
      (key : ℕ) (r : ChatResponse) (store : Option ResponseCache) (w : World)
      → Outcome
          (λ _ _. Unit)
          E
          (into_cache lib env c key r store w).0
          (into_cache lib env c key r store w).1
  unfolding into_cache read_clock note ◌>>=◌ pure
  into_cache-returns key r none w = tt
  into_cache-returns key r (some store) w = tt

  into_session-returns :
      (id : Bytes) (hash : ℕ) (store : Option SessionStore) (w : World)
      → Outcome
          (λ _ _. Unit)
          E
          (into_session lib env c id hash store w).0
          (into_session lib env c id hash store w).1
  unfolding into_session pure
  into_session-returns id hash none w = tt
  into_session-returns id hash (some store) w = elim (Bool-cases (id == [])) [
    | inl empty ↦ rw (empty) tt
    | inr named ↦ rw (named) tt
  ]

  kept_stores :
      (id model : Bytes) (request : ChatRequest) (r : ChatResponse) {P : World → Type 0}
      → Contract P
          (do
            _ ← store_response lib env c model request.messages r
            _ ← record_session lib env c id model request.messages
            pure r)
          (λ _ _. Unit)
          E
  unfolding store_response record_session
  kept_stores id model request r =
      Contract-bind {Q = λ _ _. Unit} _ _ (record { at = λ w _. into_cache-returns _ r w.cache w })
        λ _.
          Contract-bind {Q = λ _ _. Unit} _ _
            (record { at = λ w _. into_session-returns id _ w.session_store w })
            λ _. Contract-pure r (λ w _. tt)

module _ (lib : Library) (env : Environment) (c : SolvelaClient) (request : ChatRequest)
    (w : World) where
  open c use {config}

  id : Bytes
  id = derive_session_id_with_salt lib c.session_salt request.messages

  Read : World → Type 0
  Read = IsRead lib id (guarded_model config request w) request.messages w

  noted : (e : Event) (after : World) → Read after → Read (note e after)
  unfolding Read note
  noted e after i = record {
    now = i.now;
    created = i.created;
    read = i.read;
    settled_model = i.settled_model;
    sessions = i.sessions;
    cached = i.cached;
    balance = i.balance;
    balance_set = i.balance_set;
  }

  fetch_response-fails :
      (id' model : Bytes)
      → Contract Read (fetch_response lib env c request id' model) (λ _ _. Unit) (λ _. Read)
  unfolding fetch_response
  fetch_response-fails id' model =
      Contract-bind _ _ (send_with_payment-Stays lib env c Read noted _ _) λ first.
        Contract-bind _ _ (check_quality-Stays lib env c Read noted _ first)
          λ r. kept_stores lib env c (λ _. Read) id' model request r

  answer-fails :
      (id' model : Bytes) (found : Option ChatResponse)
      → Contract Read (answer lib env c request id' model found) (λ _ _. Unit) (λ _. Read)
  unfolding answer
  answer-fails id' model none = fetch_response-fails id' model
  answer-fails id' model (some r) = Contract-pure r (λ _ _. tt)

  look_up_session-IsLookedUp :
      Contract
        (λ v. v ≡ w)
        (look_up_session lib env c request (guarded_model config request w))
        (λ _. IsLookedUp id (guarded_model config request w) w)
        (λ _. Read)
  unfolding look_up_session id
  look_up_session-IsLookedUp =
      Contract-at _ _ (λ _. Read) w
        (with_session-IsLookedUp lib env c (λ _. Read) id request (guarded_model config request w)
          w.session_store w refl)

  check_cache-IsRead :
      (model : Bytes)
      → Contract
          (IsLookedUp id (guarded_model config request w) w)
          (check_cache lib env c model request.messages)
          (λ _. Read)
          (λ _. Read)
  unfolding check_cache Read
  check_cache-IsRead model = record {
    at = λ after i.
        with_cache-IsRead lib env c (λ _. Read) id (guarded_model config request w) model
          request.messages after.cache w after i refl;
  }

  chat-fails :
      Outcome (λ _ _. Unit) (λ _. Read) (chat lib env c request w).0 (chat lib env c request w).1
  unfolding chat
  chat-fails =
      (Contract-bind _ _ look_up_session-IsLookedUp λ (id', model).
          Contract-bind _ _ (check_cache-IsRead model) λ found. answer-fails id' model found).at
        w refl

-- A call of `Chat` that fails, for whatever reason, stores no response and records no request: the
-- sessions are as the lookup of the call's session left them, the cache as one read of it
-- left it, and the balance as it was.
pub chat_failed :
    (lib : Library) (env : Environment) (c : SolvelaClient) (request : ChatRequest) (w : World)
    (e : Error)
    → (chat lib env c request w).0 ≡ err e
    → IsRead lib
        (derive_session_id_with_salt lib c.session_salt request.messages)
        (guarded_model c.config request w)
        request.messages
        w
        (chat lib env c request w).1
unfolding Read id
chat_failed lib env c request w e fails =
    subst
      (λ r. Outcome (λ _ _. Unit) (λ _. Read lib env c request w) r (chat lib env c request w).1)
      fails (chat-fails lib env c request w)
