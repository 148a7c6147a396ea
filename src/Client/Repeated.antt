-- ===== src/Client/Repeated.antt =====
-- What a call of `Chat` that returned leaves in the stores, for the next call with the same request.
pub mod Again
use solvela_go.Base.{
  Bytes, ℕ, ◌≡◌, refl, sym, ap, ◌∙◌, Bool, true, false, Option, none, some, List, [], ◌∷◌, ◌==◌,
  nat_eq, bytes_eq, arith, inl, inr, Bool-cases, Option-cases, if◌then◌else◌,
}
use mathlib.Core.Option
use mathlib.Core.Path.{subst}
use solvela_go.Errors.{Error, Result, ok, err}
use solvela_go.Types.Chat.{ChatRequest, ChatResponse, ChatMessage}
use solvela_go.Clock.{Time, is_older}
use solvela_go.Keys.{cache_key, derive_session_id_with_salt}
use solvela_go.Maps.{lookup, insert, delete}
use solvela_go.Maps.Laws.{lookup-insert, lookup-delete}
use solvela_go.Cache
use solvela_go.Cache.{ResponseCache, CacheEntry, is_recent, evict}
use solvela_go.Cache.Invariant.{IsValid}
use solvela_go.Sessions
use solvela_go.Sessions.{SessionStore, SessionEntry, record_hash, record_request, get_or_create}
use solvela_go.Sessions.Store.{if_same, get_or_create_lem, lookup-record_request}
use solvela_go.Library.{Library}
use solvela_go.Client.{SolvelaClient}
use solvela_go.Client.Chat.{
  guarded_model, get_last_balance, with_session, look_up_session, with_cache, check_cache,
  into_cache, store_response, into_session, record_session, fetch_response, answer, chat,
}
use solvela_go.Client.Effects.{send_with_payment-Stays, check_quality-Stays}
use solvela_go.Exec.{World, M, ◌>>=◌, pure, Environment, Event, note, read_clock}
use solvela_go.Exec.Keeps.{
  Outcome, Contract, Contract-pure, Contract-bind, Contract-loosen, Contract-at,
}

-- The model of an existing session counts if the balance guard did not override the request's.
abbrev pub chosen : ChatRequest → Bytes → Bytes → Bytes
chosen request guarded model = if guarded == request.model then model else guarded

-- The sessions settle the model, for a call that finds its session there.
abbrev pub Settles : ChatRequest → Bytes → Bytes → Bytes → Option SessionStore → Type 0
Settles request guarded id model none = guarded ≡ model
Settles request guarded id model (some s) =
    (e : SessionEntry) × (lookup id s.sessions ≡ some e) × (chosen request guarded e.model ≡ model)

module _ (lib : Library) (c : SolvelaClient) (request : ChatRequest) where
  abbrev pub session_id : Bytes
  session_id = derive_session_id_with_salt lib c.session_salt request.messages

  -- The model of a call with this request is settled.
  pub record IsSettled (model : Bytes) (w : World) : Type 0 where
    pub settles :
        Settles request (guarded_model c.config request w) session_id model w.session_store

  -- The cache holds an answer for that model.
  pub record Remembers (r : ChatResponse) (w : World) : Type 0 where
    pub model : Bytes
    pub cache : ResponseCache
    pub entry : CacheEntry
    pub settled : IsSettled model w
    pub cached : w.cache ≡ some cache
    pub held : lookup (cache_key lib model request.messages) cache.entries ≡ some entry
    pub answers : entry.response ≡ r

  -- The cache holds none.
  record Misses (model : Bytes) (w : World) : Type 0 where
    cache : ResponseCache
    settled : IsSettled model w
    cached : w.cache ≡ some cache
    missing : lookup (cache_key lib model request.messages) cache.entries ≡ none

  -- The state before the cache is read.
  record Awaits (model : Bytes) (w : World) : Type 0 where
    cache : ResponseCache
    settled : IsSettled model w
    cached : w.cache ≡ some cache
    valid : IsValid cache

  -- What the read of the cache makes of it
  Found : Bytes → Option ChatResponse → World → Type 0
  Found model none w = Misses model w
  Found model (some r) w = Remembers r w

-- What a lookup leaves settles the model of the next.
get_or_create-Settles :
    (request : ChatRequest) (guarded id : Bytes) (s : SessionStore) (now created : Time)
    → Settles request guarded id
        (chosen request guarded (get_or_create s id guarded now created).1.model)
        (some (get_or_create s id guarded now created).0)
get_or_create-Settles request guarded id s now created =
    let (info, after) = get_or_create_lem s id guarded now created in
    (_, after id ∙ if_same id _ _, ap (λ i. chosen request guarded i.model) (sym info))

record_request-Settles :
    (request : ChatRequest) (guarded id model id' : Bytes) (hash : ℕ) (s : SessionStore)
    → Settles request guarded id model (some s)
    → Settles request guarded id model (some (record_request s id' hash))
unfolding record_hash
record_request-Settles request guarded id model id' hash s (e, found, same) =
    elim (Bool-cases (id' == id)) [
      | inl here ↦
          let named : id' ≡ id = ground arith in
          let later = lookup-record_request s id' id hash in
          (record_hash hash e, later ∙ rw (here, named, found) refl, same)
      | inr other ↦ (e, lookup-record_request s id' id hash ∙ rw (other) found, same)
    ]

-- What a read of the cache leaves under its key.
abbrev Kept : ℕ → ResponseCache → Option ChatResponse → Type 0
Kept key c none = lookup key c.entries ≡ none
Kept key c (some r) = (e : CacheEntry) × (lookup key c.entries ≡ some e) × (e.response ≡ r)

get-Kept :
    (c : ResponseCache) (key : ℕ) (now : Time)
    → IsValid c
    → Kept key (Cache.get c key now).0 (Cache.get c key now).1
unfolding Cache.get
get-Kept c key now v = elim (Option-cases (lookup key c.entries)) [
  | inl miss ↦ rw (miss, Cache.get) miss
  | inr (e, hit) ↦ elim (Bool-cases (is_older now e.inserted c.ttl)) [
    | inl old ↦
        rw (hit, Cache.get)
          (rw (old) (
            let gone = lookup-delete key key c.entries v.agrees.distinct_keys in
            ground (arith, gone)))
    | inr young ↦ rw (hit, Cache.get) (rw (young) (e, hit, refl))
  ]
]

put-Kept :
    (c : ResponseCache) (key : ℕ) (r : ChatResponse) (checked stored : Time)
    → lookup key c.entries ≡ none
    → Kept key (Cache.put c key r checked stored) (some r)
unfolding Cache.put is_recent
put-Kept c key r checked stored missing =
    rw (missing, is_recent)
      (
        record { response = r; inserted = stored },
        (let here =
              lookup-insert key key (record { response = r; inserted = stored })
                (evict c.max_entries c.order c.entries).1 in
            ground (arith, here)),
        refl,
      )

module _ (lib : Library) (env : Environment) (c : SolvelaClient) (request : ChatRequest) where
  abbrev pub Never : Error → World → Type 0
  Never e w = Unit

  with_session-Awaits :
      (store : Option SessionStore) (w : World) (cache : ResponseCache)
      → w.session_store ≡ store
      → w.cache ≡ some cache
      → IsValid cache
      → let r =
          with_session lib env c
            (session_id lib c request)
            request
            (guarded_model c.config request w)
            store
            w in
        Outcome (λ (id, model). Awaits lib c request model) Never r.0 r.1
  unfolding with_session read_clock note ◌>>=◌ pure guarded_model get_last_balance
  with_session-Awaits none w cache same cached valid = record {
    cache = cache;
    settled = record { settles = rw (same) refl };
    cached = cached;
    valid = valid;
  }
  with_session-Awaits (some s) w cache same cached valid = record {
    cache = cache;
    settled = record { settles = get_or_create-Settles request _ _ s _ _ };
    cached = cached;
    valid = valid;
  }

  Kept-Found :
      (model : Bytes) (found : Option ChatResponse) (cache : ResponseCache) (w : World)
      → w.cache ≡ some cache
      → IsSettled lib c request model w
      → Kept (cache_key lib model request.messages) cache found
      → Found lib c request model found w
  unfolding Found
  Kept-Found model none cache w cached settled missing = record {
    cache = cache;
    settled = settled;
    cached = cached;
    missing = missing;
  }
  Kept-Found model (some r) cache w cached settled (e, held, same) = record {
    model = model;
    cache = cache;
    entry = e;
    settled = settled;
    cached = cached;
    held = held;
    answers = same;
  }

  check_cache-Found :
      (model : Bytes)
      → Contract
          (Awaits lib c request model)
          (check_cache lib env c model request.messages)
          (Found lib c request model)
          Never
  unfolding check_cache with_cache read_clock note ◌>>=◌ guarded_model get_last_balance
  check_cache-Found model = record {
    at = λ w a.
        subst
          (λ store.
            let r = with_cache lib env c (cache_key lib model request.messages) store w in
            Outcome (Found lib c request model) Never r.0 r.1)
          (sym a.cached)
          (Kept-Found model _ _ _ refl (record { settles = a.settled.settles })
            (get-Kept a.cache (cache_key lib model request.messages) (env.clock w.history)
              a.valid));
  }

  noted :
      (model : Bytes) (e : Event) (w : World)
      → Misses lib c request model w
      → Misses lib c request model (note e w)
  unfolding note guarded_model get_last_balance
  noted model e w m = record {
    cache = m.cache;
    settled = record { settles = m.settled.settles };
    cached = m.cached;
    missing = m.missing;
  }

  store_response-Remembers :
      (model : Bytes) (r : ChatResponse)
      → Contract
          (Misses lib c request model)
          (store_response lib env c model request.messages r)
          (λ _. Remembers lib c request r)
          Never
  unfolding store_response into_cache read_clock note ◌>>=◌ guarded_model get_last_balance Found
  store_response-Remembers model r = record {
    at = λ w m.
        subst
          (λ store.
            let o = into_cache lib env c (cache_key lib model request.messages) r store w in
            Outcome (λ _. Remembers lib c request r) Never o.0 o.1)
          (sym m.cached)
          (Kept-Found model (some r) _ _ refl (record { settles = m.settled.settles })
            (put-Kept m.cache (cache_key lib model request.messages) r _ _ m.missing));
  }

  into_session-Remembers :
      (id : Bytes) (hash : ℕ) (r : ChatResponse) (store : Option SessionStore) (w : World)
      → w.session_store ≡ store
      → Remembers lib c request r w
      → let o = into_session lib env c id hash store w in
        Outcome (λ _. Remembers lib c request r) Never o.0 o.1
  unfolding into_session pure guarded_model get_last_balance
  into_session-Remembers id hash r none w same m = m
  into_session-Remembers id hash r (some s) w same m = elim (Bool-cases (id == [])) [
    | inl empty ↦ rw (empty) m
    | inr named ↦ rw (named) (record {
      model = m.model;
      cache = m.cache;
      entry = m.entry;
      settled = record {
        settles =
            record_request-Settles request _ _ m.model id hash s
              (subst (Settles request _ _ m.model) same m.settled.settles);
      };
      cached = m.cached;
      held = m.held;
      answers = m.answers;
    })
  ]

  fetch_response-Remembers :
      (id model : Bytes)
      → Contract
          (Misses lib c request model)
          (fetch_response lib env c request id model)
          (Remembers lib c request)
          Never
  unfolding fetch_response record_session
  fetch_response-Remembers id model =
      Contract-bind _ _ (failing (send_with_payment-Stays lib env c _ (noted model) _ _)) λ first.
        Contract-bind _ _ (failing (check_quality-Stays lib env c _ (noted model) _ first)) λ r.
          Contract-bind _ _ (store_response-Remembers model r) λ _.
            Contract-bind _ _
              (record { at = λ w m. into_session-Remembers id _ r w.session_store w refl m })
              λ _. Contract-pure r (λ w m. m)
    where
      failing :
          {m : M ChatResponse}
          → Contract
              (Misses lib c request model)
              m
              (λ _. Misses lib c request model)
              (λ _. Misses lib c request model)
          → Contract (Misses lib c request model) m (λ _. Misses lib c request model) Never
      failing k = Contract-loosen k (λ _ _ m. m) (λ _ _ _. tt)

  answer-Remembers :
      (id model : Bytes) (found : Option ChatResponse)
      → Contract
          (Found lib c request model found)
          (answer lib env c request id model found)
          (Remembers lib c request)
          Never
  unfolding answer Found
  answer-Remembers id model none = fetch_response-Remembers id model
  answer-Remembers id model (some r) = Contract-pure r (λ w m. m)

  pub chat-Remembers :
      (w : World) (cache : ResponseCache)
      → w.cache ≡ some cache
      → IsValid cache
      → Outcome
          (Remembers lib c request)
          Never
          (chat lib env c request w).0
          (chat lib env c request w).1
  unfolding chat look_up_session
  chat-Remembers w cache cached valid =
      (Contract-bind _ _
          (Contract-at _ _ Never w (with_session-Awaits w.session_store w cache refl cached valid))
          λ (id, model).
            Contract-bind _ _ (check_cache-Found model) λ found. answer-Remembers id model found).at
        w refl
