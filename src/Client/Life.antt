-- ===== src/Client/Life.antt =====
-- A client from `NewClient` on: calls of `Chat` and of `ChatStream`, streams that come to their end, and
-- balances that are reported, one after the other in any order.
use solvela_go.Base.{Bytes, ℕ, ℤ, Bool, true, false, none, some, List, ◌⊎◌, ◌≡◌, sym, if◌then◌else◌}
use mathlib.Core.Path.{subst}
use solvela_go.Errors.{ok}
use solvela_go.Config.{ClientConfig, Setting}
use solvela_go.Types.Chat.{Float64, ChatRequest}
use solvela_go.Http.{Body}
use solvela_go.Library.{Library}
use solvela_go.Cache.{new_response_cache}
use solvela_go.Cache.Invariant.{new-IsValid}
use solvela_go.Sessions.{new_session_store}
use solvela_go.Stream.{ChatChunkOrError, read_stream, forward}
use solvela_go.Client.{SolvelaClient}
use solvela_go.Client.Chat.{chat, set_last_balance}
use solvela_go.Client.Streams.{chat_stream, finish_stream, follow_stream}
use solvela_go.Client.Signatures.{IsSound}
use solvela_go.Client.Safety.{KeepsSound, after_action, chat-IsSound}
use solvela_go.Client.Streams.Safety.{chat_stream-IsSound}
use solvela_go.Client.Steps.{record_session-Stays}
use solvela_go.Client.Construction.{NewClient, new_world, assemble, new_client}
use solvela_go.Client.Construction.Ready.{new_client-IsReady, new_client-assemble}
use solvela_go.Client.WellFormed.{
  HasCache, HasSessions, IsWellFormed, chat-IsWellFormed, chat_stream-IsWellFormed,
  follow_stream-IsWellFormed,
}
use solvela_go.Exec.{World, note, Environment}
use solvela_go.Exec.Keeps.{Contract-bind, Contract-pure}

module _ (lib : Library) (env : Environment) (c : SolvelaClient) where
  pub data Step (w : World) : World → Type 0 where
    chats : (request : ChatRequest) → Step w (chat lib env c request w).1
    streams : (request : ChatRequest) → Step w (chat_stream lib env c request w).1
    follows :
        (alive taken alive' taken' : ℕ → Bool) (request : ChatRequest) (id model : Bytes)
        (body : Body)
        → Step w (follow_stream lib env c alive taken alive' taken' request id model body w).1
    reports : (balance : Float64) → Step w (set_last_balance balance w)

  pub data Reach (first : World) : World → Type 0 where
    starts : Reach first first
    later : {v w : World} → Reach first v → Step v w → Reach first w

  -- Every payment and every signature of the history is sound, and the stores are well formed.
  pub record IsSafe (w : World) : Type 0 where
    pub sound : IsSound lib c w.history
    pub formed : IsWellFormed w

  abbrev Sound : World → Type 0
  Sound w = IsSound lib c w.history

  finish_stream-Sound :
      (request : ChatRequest) (id model : Bytes) (items : List ChatChunkOrError) (ended : Bool)
      → KeepsSound lib env c (finish_stream lib env c request id model (items, ended))
  unfolding finish_stream note
  finish_stream-Sound request id model items true =
      Contract-bind _ _
        (record_session-Stays lib env c Sound (λ t w s. (tt, s)) (λ _ w s. s) id model
          request.messages)
        λ _. Contract-pure items (λ w s. s)
  finish_stream-Sound request id model items false = Contract-pure items (λ w s. s)

  Step-IsSafe : (w : World) {v : World} → Step w v → IsSafe w → IsSafe v
  unfolding follow_stream set_last_balance
  Step-IsSafe w (chats request) i = record {
    sound = chat-IsSound lib env c request w i.sound;
    formed = chat-IsWellFormed lib env c request w i.formed;
  }
  Step-IsSafe w (streams request) i = record {
    sound = chat_stream-IsSound lib env c request w i.sound;
    formed = chat_stream-IsWellFormed lib env c request w i.formed;
  }
  Step-IsSafe w (follows alive taken alive' taken' request id model body) i =
      let items = forward alive' taken' 0 (read_stream lib alive taken body) in
      record {
        sound =
            after_action lib env c (finish_stream lib env c request id model items) w
              (finish_stream-Sound request id model items.0 items.1) i.sound;
        formed =
            follow_stream-IsWellFormed lib env c alive taken alive' taken' request id model body w
              i.formed;
      }
  Step-IsSafe w (reports balance) i = record {
    sound = i.sound;
    formed = record { cache = i.formed.cache; sessions = i.formed.sessions };
  }

  Reach-IsSafe : (first : World) {w : World} → IsSafe first → Reach first w → IsSafe w
  Reach-IsSafe first i starts = i
  Reach-IsSafe first i (later {v} r step) = Step-IsSafe v step (Reach-IsSafe first i r)

new_cache : (enabled : Bool) → HasCache (if enabled then some new_response_cache else none)
unfolding new_response_cache
new_cache true = new-IsValid _ _ _
new_cache false = tt

new_sessions :
    (enabled : Bool) (ttl : ℤ)
    → HasSessions (if enabled then some (new_session_store ttl) else none)
unfolding new_session_store
new_sessions true ttl = tt
new_sessions false ttl = tt

assemble-IsWellFormed :
    (cfg : ClientConfig) (has_signer : Bool) (salt : Bytes)
    → IsWellFormed (assemble cfg has_signer salt).world
unfolding assemble new_world
assemble-IsWellFormed cfg has_signer salt = record {
  cache = new_cache cfg.enable_cache;
  sessions = new_sessions cfg.enable_sessions cfg.session_ttl;
}

-- Whatever calls of `Chat` and `ChatStream` a new client has served since, in any order, and however
-- they and the streams that they opened ended, whatever was answered to them and whatever balances were reported in between: the
-- signer was only asked for payments that the configuration allows, each signature that was sent
-- had been given before, the cache is valid and within its bound, and the sessions have distinct ids.
pub client-IsSafe :
    (lib : Library) (env : Environment) (has_signer : Bool) (salt : Bytes ⊎ Bytes)
    (settings : List Setting) (n : NewClient) (w : World)
    → new_client lib has_signer salt settings ≡ ok n
    → Reach lib env n.client n.world w
    → IsSafe lib env n.client w
client-IsSafe lib env has_signer salt settings n w made r =
    let (bytes, assembled) = new_client-assemble lib has_signer salt settings made in
    let ready = new_client-IsReady lib has_signer salt settings made in
    Reach-IsSafe lib env n.client n.world
      (record {
        sound = subst (IsSound lib n.client) (sym ready.untouched) tt;
        formed =
            subst (λ n. IsWellFormed n.world) assembled (assemble-IsWellFormed _ has_signer bytes);
      })
      r
