-- ===== src/Exec.antt =====
-- The world of a client: its own mutable state and the history of what it did outside. Whatever the
-- clock, the gateway, the context and the signer answer may depend on all that happened before, so
-- an environment is any function of the history.
pub mod Keeps
pub mod Effort
use solvela_go.Base.{Bytes, ℕ, Bool, Option, none, some, List, [], ◌∷◌}
use solvela_go.Errors.{Error, Result, ok, err}
use solvela_go.Types.Chat.{Float64}
use solvela_go.Types.Payment.{Resource, PaymentAccept, PaymentPayload}
use solvela_go.Clock.{Time}
use solvela_go.Cache.{ResponseCache}
use solvela_go.Sessions.{SessionStore}
use solvela_go.Http.{HttpRequest, HttpOutcome}

-- The arguments of `Signer.SignPayment`, less the context.
pub record SignRequest : Type 0 where
  pub amount_atomic : ℕ
  pub recipient : Bytes
  pub resource : Resource
  pub accepted : PaymentAccept

-- What the client did outside itself, with the answer that it got.
pub data Event : Type 0 where
  clock_read : Time → Event
  exchanged : HttpRequest → HttpOutcome → Event
  context_checked : Bool → Event
  signed : SignRequest → Result PaymentPayload → Event

-- The latest event first.
abbrev pub History : Type 0
History = List Event

pub record Environment : Type 0 where
  pub clock : History → Time
  pub gateway : History → HttpRequest → HttpOutcome
  pub context_done : History → Bool
  pub signer : History → SignRequest → Result PaymentPayload

-- The fields of `SolvelaClient` that change, and the history.
pub record World : Type 0 where
  pub cache : Option ResponseCache
  pub session_store : Option SessionStore
  pub last_balance : Float64
  pub last_balance_set : Bool
  pub history : History

-- What was written before an error stays written.
abbrev pub M {ℓ} : Type ℓ → Type ℓ
M A = World → Result A × World

abbrev pub continue {ℓ κ} : {A : Type ℓ} {B : Type κ} → Result A → (A → M B) → M B
continue (ok a) f w = f a w
continue (err e) f w = (err e, w)

infixl 5 ◌>>=◌ ◌>>◌
unfoldable pub ◌>>=◌ {ℓ κ} : {A : Type ℓ} {B : Type κ} → M A → (A → M B) → M B
◌>>=◌ m f w = let (r, w') = m w in continue r f w'

abbrev pub ◌>>◌ {ℓ κ} : {A : Type ℓ} {B : Type κ} → M A → M B → M B
m >> n = m >>= λ _. n

module _ {ℓ} {A : Type ℓ} where
  unfoldable pub pure : A → M A
  pure a w = (ok a, w)

  unfoldable pub raise : Error → M A
  raise e w = (err e, w)

  unfoldable pub lift : Result A → M A
  lift r w = (r, w)

unfoldable pub note : Event → World → World
note e w = record w { history = e ∷ w.history }

module _ (env : Environment) where
  -- `time.Now` and `time.Since` read the clock.
  unfoldable pub read_clock : M Time
  unfolding note
  read_clock w = let t = env.clock w.history in (ok t, note (clock_read t) w)

  -- `http.Client.Do`
  unfoldable pub exchange : HttpRequest → M HttpOutcome
  unfolding note
  exchange req w = let o = env.gateway w.history req in (ok o, note (exchanged req o) w)

  -- `ctx.Err() != nil`
  unfoldable pub check_context : M Bool
  unfolding note
  check_context w = let b = env.context_done w.history in (ok b, note (context_checked b) w)

  -- `Signer.SignPayment`
  unfoldable pub sign : SignRequest → M PaymentPayload
  unfolding note
  sign req w = let r = env.signer w.history req in (r, note (signed req r) w)
