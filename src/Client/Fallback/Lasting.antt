-- ===== src/Client/Fallback/Lasting.antt =====
-- The model of a conversation over the calls that follow its first.
use solvela_go.Base.{
  Bytes, ℕ, ◌≡◌, refl, sym, ap, ◌∙◌, true, false, some, none, [], ◌==◌, bytes_eq, inl, inr,
  Bool-cases, arith,
}
use mathlib.Core.Path.{subst}
use solvela_go.Errors.{ok}
use solvela_go.Types.Chat.{Float64, ChatRequest}
use solvela_go.Clock.{is_older}
use solvela_go.Floats.{is_zero}
use solvela_go.Maps.{lookup}
use solvela_go.Sessions.{SessionStore, SessionEntry, get_or_create}
use solvela_go.Sessions.Store.{get_or_create_lem, current_fresh}
use solvela_go.Library.{Library}
use solvela_go.Client.{SolvelaClient}
use solvela_go.Client.Chat.{
  get_last_balance, set_last_balance, guarded_model, with_session, look_up_session, chat,
}
use solvela_go.Client.Repeated.{session_id}
use solvela_go.Client.Fallback.{IsPinned, chat-pins, chat-IsPinned, look_up_session-pinned}
use solvela_go.Exec.{World, Environment, ◌>>=◌, read_clock}
use solvela_go.Exec.Keeps.{Outcome}

-- A lookup of any session leaves one that is not too old where it is.
get_or_create-keeps :
    (id model id' model' : Bytes) (now created : ℕ) (w v : World) (i : IsPinned id model w)
    → is_older now i.entry.created i.store.ttl ≡ false
    → v.session_store ≡ some (get_or_create i.store id' model' now created).0
    → IsPinned id model v
get_or_create-keeps id model id' model' now created w v i young stored =
    let after = (get_or_create_lem i.store id' model' now created).1 id in
    elim (Bool-cases (id' == id)) [
      | inl here ↦
          let named : id' ≡ id = ground (arith, here) in
          record {
            store = _;
            entry = i.entry;
            stored = stored;
            held =
                after
                ∙ rw (here, named, i.held)
                    (ap some (current_fresh i.entry model' now created i.store.ttl young));
            pinned = i.pinned;
          }
      | inr other ↦ record {
        store = _;
        entry = i.entry;
        stored = stored;
        held = after ∙ rw other i.held;
        pinned = i.pinned;
      }
    ]

module _ (lib : Library) (env : Environment) (c : SolvelaClient) where
  open c use {config}

  -- The session, if it is stored, has not passed its time to live.
  abbrev pub Unexpired : Bytes → World → Type 0
  Unexpired id w =
      (s : SessionStore) (e : SessionEntry)
      → w.session_store ≡ some s
      → lookup id s.sessions ≡ some e
      → is_older (env.clock w.history) e.created s.ttl ≡ false

  -- Calls of `Chat`, each of which begins before the session has expired, and balances that are
  -- reported, in any order
  pub data Later (id : Bytes) (u : World) : World → Type 0 where
    now : Later id u u
    calls :
        {w : World} (request : ChatRequest)
        → Later id u w
        → Unexpired id w
        → Later id u (chat lib env c request w).1
    reports :
        {w : World} (balance : Float64) → Later id u w → Later id u (set_last_balance balance w)

  with_session-keeps :
      (id model id' guarded : Bytes) (request : ChatRequest) (w : World) (i : IsPinned id model w)
      → is_older (env.clock w.history) i.entry.created i.store.ttl ≡ false
      → let o = with_session lib env c id' request guarded (some i.store) w in
        Outcome (λ _. IsPinned id model) (λ _. IsPinned id model) o.0 o.1
  unfolding with_session read_clock ◌>>=◌
  with_session-keeps id model id' guarded request w i young =
      get_or_create-keeps id model id' guarded _ _ w _ i young refl

  look_up_session-keeps :
      (id model guarded : Bytes) (request : ChatRequest) (w : World) (i : IsPinned id model w)
      → is_older (env.clock w.history) i.entry.created i.store.ttl ≡ false
      → let o = look_up_session lib env c request guarded w in
        Outcome (λ _. IsPinned id model) (λ _. IsPinned id model) o.0 o.1
  unfolding look_up_session
  look_up_session-keeps id model guarded request w i young =
      subst
        (λ store.
          let o = with_session lib env c (session_id lib c request) request guarded store w in
          Outcome (λ _. IsPinned id model) (λ _. IsPinned id model) o.0 o.1)
        (sym i.stored)
        (with_session-keeps id model (session_id lib c request) guarded request w i young)

  Later-IsPinned :
      (id model : Bytes) {u v : World} → Later id u v → IsPinned id model u → IsPinned id model v
  unfolding set_last_balance
  Later-IsPinned id model now i = i
  Later-IsPinned id model (calls {w} request l young) i =
      let i' = Later-IsPinned id model l i in
      chat-pins lib env c id model request w (
        look_up_session-keeps id model (guarded_model config request w) request w i'
          (young i'.store i'.entry i'.stored i'.held))
  Later-IsPinned id model (reports balance l) i =
      let i' = Later-IsPinned id model l i in
      record {
        store = i'.store;
        entry = i'.entry;
        stored = i'.stored;
        held = i'.held;
        pinned = i'.pinned;
      }

  unguarded :
      (request : ChatRequest) (w : World)
      → is_zero w.last_balance ≡ false
      → guarded_model config request w ≡ request.model
  unfolding guarded_model get_last_balance
  unguarded request w positive = ground (arith, positive)

  -- A call that begins a session while the balance is zero, however it ends, pins the session to the
  -- free fallback model: after any further calls of `Chat`, of this session or others, and any
  -- reports of balances, as long as the session had not expired when each of those calls began, a
  -- call of the session that begins before it has expired settles on the fallback model, although
  -- the balance is then not zero and whatever model it asks for.
  pub fallback_sticks :
      (request later : ChatRequest) (w v : World) (s : SessionStore)
      → w.session_store ≡ some s
      → lookup (session_id lib c request) s.sessions ≡ none
      → w.last_balance_set ≡ true
      → is_zero w.last_balance ≡ true
      → (config.free_fallback_model == []) ≡ false
      → Later (session_id lib c request) (chat lib env c request w).1 v
      → session_id lib c later ≡ session_id lib c request
      → is_zero v.last_balance ≡ false
      → Unexpired (session_id lib c request) v
      → (look_up_session lib env c later (guarded_model config later v) v).0
        ≡ ok (session_id lib c later, config.free_fallback_model)
  unfolding guarded_model get_last_balance
  fallback_sticks request later w v s stored missing known empty named l same positive young =
      let id = session_id lib c request in
      let model = config.free_fallback_model in
      let broke : guarded_model config request w ≡ model = rw (known, empty, named) refl in
      let first =
        subst (λ m. IsPinned id m (chat lib env c request w).1) broke
          (chat-IsPinned lib env c request w s stored missing) in
      let i = Later-IsPinned id model l first in
      look_up_session-pinned lib env c id model _ later v i same (unguarded later v positive)
        (young i.store i.entry i.stored i.held)
