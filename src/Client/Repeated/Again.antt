-- ===== src/Client/Repeated/Again.antt =====
-- A call of `Chat` with a request that was answered before.
use solvela_go.Base.{Bytes, ℕ, ◌≡◌, refl, sym, ap, ◌∙◌, false, Option, none, some, nat_eq, bytes_eq}
use mathlib.Core.Path.{subst}
use solvela_go.Errors.{Error, Result, ok, err}
use solvela_go.Types.Chat.{ChatRequest, ChatResponse}
use solvela_go.Clock.{Time, is_older}
use solvela_go.Keys.{cache_key}
use solvela_go.Maps.{lookup}
use solvela_go.Cache
use solvela_go.Cache.{ResponseCache, CacheEntry}
use solvela_go.Cache.Invariant.{IsValid}
use solvela_go.Sessions.{SessionStore, SessionEntry}
use solvela_go.Sessions.Store.{get_or_create-found}
use solvela_go.Library.{Library}
use solvela_go.Client.{SolvelaClient}
use solvela_go.Client.Chat.{
  guarded_model, with_session, look_up_session, with_cache, check_cache, answer, chat,
}
use solvela_go.Client.Repeated.{chosen, Settles, session_id, Remembers, Never, chat-Remembers}
use solvela_go.Exec.{World, ◌>>=◌, pure, Environment, note, read_clock}
use solvela_go.Exec.Effort.{exchanges, signings}
use solvela_go.Exec.Keeps.{Outcome, Contract, Contract-pure, Contract-bind, Contract-at}

-- When the next call reads the clock, no session and no response has passed its time to live.
pub record IsFresh (lib : Library) (env : Environment) (c : SolvelaClient) (request : ChatRequest)
    (w : World) : Type 0 where
  pub sessions :
      (s : SessionStore) (id : Bytes) (e : SessionEntry)
      → w.session_store ≡ some s
      → lookup id s.sessions ≡ some e
      → is_older (env.clock w.history) e.created s.ttl ≡ false
  pub responses :
      (cache : ResponseCache) (key : ℕ) (e : CacheEntry)
      → w.cache ≡ some cache
      → lookup key cache.entries ≡ some e
      → is_older
          (env.clock
            (look_up_session lib env c request (guarded_model c.config request w) w).1.history)
          e.inserted
          cache.ttl
        ≡ false

hit_again :
    (c : ResponseCache) (key : ℕ) (now : Time) (e : CacheEntry)
    → lookup key c.entries ≡ some e
    → is_older now e.inserted c.ttl ≡ false
    → (Cache.get c key now).1 ≡ some e.response
unfolding Cache.get
hit_again c key now e found young = rw (found, Cache.get) (rw (young) refl)

-- No request went to the gateway or to the signer between the two worlds.
record IsQuiet (before after : World) : Type 0 where
  posted : exchanges after.history ≡ exchanges before.history
  paid : signings after.history ≡ signings before.history

module _ (lib : Library) (env : Environment) (c : SolvelaClient) (request : ChatRequest) (w : World)
    (r : ChatResponse) (m : Remembers lib c request r w) where
  Impossible : Error → World → Type 0
  Impossible e v = ⊥

  record IsResumed (model : Bytes) (v : World) : Type 0 where
    same_model : model ≡ m.model
    cached : v.cache ≡ some m.cache
    young : is_older (env.clock v.history) m.entry.inserted m.cache.ttl ≡ false
    quiet : IsQuiet w v

  with_session-IsResumed :
      (store : Option SessionStore)
      → w.session_store ≡ store
      → IsFresh lib env c request w
      → let o =
          with_session lib env c
            (session_id lib c request)
            request
            (guarded_model c.config request w)
            store
            w in
        (is_older (env.clock o.1.history) m.entry.inserted m.cache.ttl ≡ false)
        → Outcome (λ (id, model). IsResumed model) Impossible o.0 o.1
  unfolding with_session read_clock note ◌>>=◌ pure
  with_session-IsResumed none same fresh young = record {
    same_model = subst (Settles request _ _ m.model) same m.settled.settles;
    cached = m.cached;
    young = young;
    quiet = record { posted = refl; paid = refl };
  }
  with_session-IsResumed (some s) same fresh young =
      let (e, found, settled) = subst (Settles request _ _ m.model) same m.settled.settles in
      record {
        same_model =
            ap (chosen request (guarded_model c.config request w)) (
              get_or_create-found s (session_id lib c request) _ _ _ e found
                (fresh.sessions s _ e same found))
            ∙ settled;
        cached = m.cached;
        young = young;
        quiet = record { posted = refl; paid = refl };
      }

  look_up_session-IsResumed :
      IsFresh lib env c request w
      → Contract
          (λ v. v ≡ w)
          (look_up_session lib env c request (guarded_model c.config request w))
          (λ (id, model). IsResumed model)
          Impossible
  unfolding look_up_session
  look_up_session-IsResumed fresh = Contract-at _ _ Impossible w (
      with_session-IsResumed w.session_store refl fresh
        (fresh.responses m.cache _ m.entry m.cached m.held))

  check_cache-hits :
      (model : Bytes)
      → Contract
          (IsResumed model)
          (check_cache lib env c model request.messages)
          (λ found v. (found ≡ some r) × IsQuiet w v)
          Impossible
  unfolding check_cache with_cache read_clock note ◌>>=◌
  check_cache-hits model = record {
    at = λ v i.
        subst
          (λ store.
            let o = with_cache lib env c (cache_key lib model request.messages) store v in
            Outcome (λ found v. (found ≡ some r) × IsQuiet w v) Impossible o.0 o.1)
          (sym i.cached)
          (
            hit_again m.cache _ _ m.entry (rw (i.same_model) m.held) i.young ∙ ap some m.answers,
            record { posted = i.quiet.posted; paid = i.quiet.paid },
          );
  }

  answer-hits :
      (id model : Bytes) (found : Option ChatResponse)
      → Contract
          (λ v. (found ≡ some r) × IsQuiet w v)
          (answer lib env c request id model found)
          (λ x v. (x ≡ r) × IsQuiet w v)
          Impossible
  unfolding answer pure
  answer-hits id model none = record { at = λ v (miss, q). absurd (cc miss) }
  answer-hits id model (some x) = Contract-pure x (λ v (hit, q). (cc hit, q))

  returned :
      (o : Result ChatResponse) (v : World)
      → Outcome (λ x v. (x ≡ r) × IsQuiet w v) Impossible o v
      → (o ≡ ok r)
        × (exchanges v.history ≡ exchanges w.history)
        × (signings v.history ≡ signings w.history)
  unfolding Impossible
  returned (ok x) v (same, q) = (ap ok same, q.posted, q.paid)
  returned (err e) v impossible = absurd impossible

  -- The call of a client that remembers an answer
  pub chat_remembered :
      IsFresh lib env c request w
      → ((chat lib env c request w).0 ≡ ok r)
        × (exchanges (chat lib env c request w).1.history ≡ exchanges w.history)
        × (signings (chat lib env c request w).1.history ≡ signings w.history)
  unfolding chat
  chat_remembered fresh = returned _ _ (
      (Contract-bind _ _ (look_up_session-IsResumed fresh) λ (id, model).
          Contract-bind _ _ (check_cache-hits model) λ found. answer-hits id model found).at
        w refl)

-- With the cache enabled and valid: once a call of `Chat` has returned a response, the same request
-- again, before the stored sessions and responses have passed their times to live, returns that
-- response and sends nothing to the gateway or the signer, so that nothing is paid twice.
pub chat_again :
    (lib : Library) (env : Environment) (c : SolvelaClient) (request : ChatRequest) (w : World)
    (cache : ResponseCache) (r : ChatResponse)
    → w.cache ≡ some cache
    → IsValid cache
    → (chat lib env c request w).0 ≡ ok r
    → IsFresh lib env c request (chat lib env c request w).1
    → let w' = (chat lib env c request w).1 in
      ((chat lib env c request w').0 ≡ ok r)
      × (exchanges (chat lib env c request w').1.history ≡ exchanges w'.history)
      × (signings (chat lib env c request w').1.history ≡ signings w'.history)
chat_again lib env c request w cache r cached valid returns fresh =
    let w' = (chat lib env c request w).1 in
    chat_remembered lib env c request w' r
      (subst (λ o. Outcome (Remembers lib c request) (Never lib env c request) o w') returns
        (chat-Remembers lib env c request w cache cached valid))
      fresh
