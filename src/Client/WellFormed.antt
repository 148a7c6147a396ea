-- ===== src/Client/WellFormed.antt =====
-- The stores of a client stay well formed through its calls.
use solvela_go.Base.{
  Bytes, ℕ, Bool, true, false, Option, none, some, List, [], inl, inr, Bool-cases, ◌==◌, bytes_eq,
}
use solvela_go.Types.Chat.{ChatRequest, ChatResponse, ChatMessage}
use solvela_go.Keys.{cache_key, derive_session_id_with_salt}
use solvela_go.Maps.{NodupKeys}
use solvela_go.Cache.{ResponseCache}
use solvela_go.Cache.Invariant.{IsValid, get-IsValid, put-IsValid}
use solvela_go.Sessions.{SessionStore}
use solvela_go.Sessions.Store.{get_or_create-NodupKeys, record_request-NodupKeys}
use solvela_go.Transport.{SendChatResult, response, payment_required}
use solvela_go.Library.{Library}
use solvela_go.Http.{Body}
use solvela_go.Stream.{ChatChunkOrError, send_chat_stream, read_stream, forward}
use solvela_go.Client.{SolvelaClient, Resolved, resolved, resolve_payment_signature}
use solvela_go.Client.Chat.{
  guarded_model, with_session, look_up_session, with_cache, check_cache, into_cache, store_response,
  into_session, record_session, fetch_response, answer, chat,
}
use solvela_go.Client.Streams.{start_stream, chat_stream, finish_stream, follow_stream}
use solvela_go.Client.Effects.{
  lift-Stays, exchange-Stays, send_chat-Stays, sign_payment_required-Stays, send_with_payment-Stays,
  check_quality-Stays,
}
use solvela_go.Exec.{World, M, ◌>>=◌, pure, Environment, Event, note, read_clock}
use solvela_go.Exec.Effort.{unconditional}
use solvela_go.Exec.Keeps.{Outcome, Contract, Contract-pure, Contract-bind}

abbrev pub HasCache : Option ResponseCache → Type 0
HasCache none = Unit
HasCache (some c) = IsValid c

abbrev pub HasSessions : Option SessionStore → Type 0
HasSessions none = Unit
HasSessions (some s) = NodupKeys s.sessions

-- The cache, if there is one, is valid, and the sessions, if any, have distinct ids.
pub record IsWellFormed (w : World) : Type 0 where
  pub cache : HasCache w.cache
  pub sessions : HasSessions w.session_store

abbrev pub Stays : {A : Type 0} → M A → Type 0
Stays m = Contract IsWellFormed m (λ _. IsWellFormed) (λ _. IsWellFormed)

pub noted : (e : Event) (w : World) → IsWellFormed w → IsWellFormed (note e w)
unfolding note
noted e w i = record { cache = i.cache; sessions = i.sessions }

module _ (lib : Library) (env : Environment) (c : SolvelaClient) where
  with_session-Stays :
      (id : Bytes) (request : ChatRequest) (model : Bytes) (store : Option SessionStore) (w : World)
      → IsWellFormed w
      → HasSessions store
      → let o = with_session lib env c id request model store w in
        Outcome (λ _. IsWellFormed) (λ _. IsWellFormed) o.0 o.1
  unfolding with_session read_clock ◌>>=◌ pure note
  with_session-Stays id request model none w i s = i
  with_session-Stays id request model (some store) w i s = record {
    cache = i.cache;
    sessions = get_or_create-NodupKeys store id model _ _ s;
  }

  pub look_up_session-Stays :
      (request : ChatRequest) (model : Bytes) → Stays (look_up_session lib env c request model)
  unfolding look_up_session
  look_up_session-Stays request model = record {
    at = λ w i.
        with_session-Stays (derive_session_id_with_salt lib c.session_salt request.messages) request
          model w.session_store w i i.sessions;
  }

  into_session-Stays :
      (id : Bytes) (hash : ℕ) (store : Option SessionStore) (w : World)
      → IsWellFormed w
      → HasSessions store
      → let o = into_session lib env c id hash store w in
        Outcome (λ _. IsWellFormed) (λ _. IsWellFormed) o.0 o.1
  unfolding into_session pure
  into_session-Stays id hash none w i s = i
  into_session-Stays id hash (some store) w i s = elim (Bool-cases (id == [])) [
    | inl empty ↦ rw (empty) i
    | inr named ↦
        rw (named) (record { cache = i.cache; sessions = record_request-NodupKeys store id hash s })
  ]

  pub record_session-Stays :
      (id model : Bytes) (messages : List ChatMessage)
      → Stays (record_session lib env c id model messages)
  unfolding record_session
  record_session-Stays id model messages = record {
    at = λ w i. into_session-Stays id (cache_key lib model messages) w.session_store w i i.sessions;
  }

  with_cache-Stays :
      (key : ℕ) (store : Option ResponseCache) (w : World)
      → IsWellFormed w
      → HasCache store
      → let o = with_cache lib env c key store w in
        Outcome (λ _. IsWellFormed) (λ _. IsWellFormed) o.0 o.1
  unfolding with_cache read_clock ◌>>=◌ pure note
  with_cache-Stays key none w i v = i
  with_cache-Stays key (some store) w i v = record {
    cache = get-IsValid store key _ v;
    sessions = i.sessions;
  }

  pub check_cache-Stays :
      (model : Bytes) (messages : List ChatMessage) → Stays (check_cache lib env c model messages)
  unfolding check_cache
  check_cache-Stays model messages = record {
    at = λ w i. with_cache-Stays (cache_key lib model messages) w.cache w i i.cache;
  }

  into_cache-Stays :
      (key : ℕ) (r : ChatResponse) (store : Option ResponseCache) (w : World)
      → IsWellFormed w
      → HasCache store
      → let o = into_cache lib env c key r store w in
        Outcome (λ _. IsWellFormed) (λ _. IsWellFormed) o.0 o.1
  unfolding into_cache read_clock ◌>>=◌ pure note
  into_cache-Stays key r none w i v = i
  into_cache-Stays key r (some store) w i v = record {
    cache = put-IsValid store key r _ _ v;
    sessions = i.sessions;
  }

  pub store_response-Stays :
      (model : Bytes) (messages : List ChatMessage) (r : ChatResponse)
      → Stays (store_response lib env c model messages r)
  unfolding store_response
  store_response-Stays model messages r = record {
    at = λ w i. into_cache-Stays (cache_key lib model messages) r w.cache w i i.cache;
  }

  answer-Stays :
      (request : ChatRequest) (id model : Bytes) (found : Option ChatResponse)
      → Stays (answer lib env c request id model found)
  unfolding answer fetch_response
  answer-Stays request id model (some r) = Contract-pure r (λ w i. i)
  answer-Stays request id model none =
      Contract-bind _ _ (send_with_payment-Stays lib env c _ noted _ _) λ first.
        Contract-bind _ _ (check_quality-Stays lib env c _ noted _ first) λ r.
          Contract-bind _ _ (store_response-Stays model request.messages r) λ _.
            Contract-bind _ _ (record_session-Stays id model request.messages)
              λ _. Contract-pure r (λ w i. i)

  chat-Stays : (request : ChatRequest) → Stays (chat lib env c request)
  unfolding chat
  chat-Stays request = record {
    at = λ w i.
        (Contract-bind _ _ (look_up_session-Stays request (guarded_model c.config request w))
            λ (id, model).
              Contract-bind _ _ (check_cache-Stays model request.messages)
                λ found. answer-Stays request id model found).at
          w i;
  }

  send_chat_stream-Stays :
      (request : ChatRequest) (signature : Bytes)
      → Stays (send_chat_stream lib env c.transport request signature [])
  unfolding send_chat_stream
  send_chat_stream-Stays request signature =
      Contract-bind _ _ (lift-Stays lib env c _ noted _) λ body.
        Contract-bind _ _ (lift-Stays lib env c _ noted _) λ _.
          Contract-bind _ _ (exchange-Stays lib env c _ noted _) λ o. lift-Stays lib env c _ noted _

  resolved-Stays : (r : SendChatResult) → Stays (resolved lib env c r)
  unfolding resolved
  resolved-Stays (response r) = Contract-pure _ (λ w i. i)
  resolved-Stays (payment_required pr) =
      Contract-bind _ _ (sign_payment_required-Stays lib env c _ noted pr)
        λ signature. Contract-pure _ (λ w i. i)

  start_stream-Stays :
      (request : ChatRequest) (id model : Bytes) (x : Resolved)
      → Stays (start_stream lib env c request id model x)
  unfolding start_stream
  start_stream-Stays request id model (signature, some r) =
      Contract-bind _ _ (record_session-Stays id model request.messages)
        λ _. Contract-pure _ (λ w i. i)
  start_stream-Stays request id model (signature, none) =
      Contract-bind _ _ (send_chat_stream-Stays _ signature) λ body. Contract-pure _ (λ w i. i)

  chat_stream-Stays : (request : ChatRequest) → Stays (chat_stream lib env c request)
  unfolding chat_stream resolve_payment_signature
  chat_stream-Stays request = record {
    at = λ w i.
        (Contract-bind _ _ (look_up_session-Stays request (guarded_model c.config request w))
            λ (id, model).
              Contract-bind _ _
                (Contract-bind _ _ (send_chat-Stays lib env c _ noted _ [] []) resolved-Stays)
                λ x. start_stream-Stays request id model x).at
          w i;
  }

  pub chat-IsWellFormed :
      (request : ChatRequest) (w : World)
      → IsWellFormed w
      → IsWellFormed (chat lib env c request w).1
  chat-IsWellFormed request w i =
      unconditional IsWellFormed (chat lib env c request w).0 _ ((chat-Stays request).at w i)

  pub chat_stream-IsWellFormed :
      (request : ChatRequest) (w : World)
      → IsWellFormed w
      → IsWellFormed (chat_stream lib env c request w).1
  chat_stream-IsWellFormed request w i =
      unconditional IsWellFormed (chat_stream lib env c request w).0 _
        ((chat_stream-Stays request).at w i)

  finish_stream-Stays :
      (request : ChatRequest) (id model : Bytes) (items : List ChatChunkOrError) (ended : Bool)
      → Stays (finish_stream lib env c request id model (items, ended))
  unfolding finish_stream
  finish_stream-Stays request id model items true =
      Contract-bind _ _ (record_session-Stays id model request.messages)
        λ _. Contract-pure items (λ w i. i)
  finish_stream-Stays request id model items false = Contract-pure items (λ w i. i)

  pub follow_stream-IsWellFormed :
      (alive taken alive' taken' : ℕ → Bool) (request : ChatRequest) (id model : Bytes)
      (body : Body) (w : World)
      → IsWellFormed w
      → IsWellFormed (follow_stream lib env c alive taken alive' taken' request id model body w).1
  unfolding follow_stream
  follow_stream-IsWellFormed alive taken alive' taken' request id model body w i =
      let items = forward alive' taken' 0 (read_stream lib alive taken body) in
      unconditional IsWellFormed (finish_stream lib env c request id model items w).0 _
        ((finish_stream-Stays request id model items.0 items.1).at w i)
