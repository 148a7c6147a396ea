-- ===== src/Exec/Effort.antt =====
-- How often an action goes to the gateway and to the signer.
use solvela_go.Base.{ℕ, suc, ◌+◌, ◌*◌, ◌≤◌, Bool, true, false, [], ◌∷◌, if◌then◌else◌, arith}
use solvela_go.Errors.{Error, Result, ok, err}
use solvela_go.Types.Payment.{PaymentPayload}
use solvela_go.Http.{HttpRequest}
use solvela_go.Exec.{
  World, M, ◌>>=◌, pure, raise, lift, Environment, SignRequest, History, clock_read, exchanged,
  context_checked, signed, note, exchange, sign,
}
use solvela_go.Exec.Keeps.{
  Outcome, Contract, Contract-pure, Contract-raise, Contract-lift, Contract-bind, Contract-loosen,
}

-- The requests to the gateway, and those to the signer.
abbrev pub exchanges : History → ℕ
exchanges [] = 0
exchanges (exchanged req o ∷ h) = suc (exchanges h)
exchanges (clock_read t ∷ h) = exchanges h
exchanges (context_checked b ∷ h) = exchanges h
exchanges (signed req r ∷ h) = exchanges h

abbrev pub signings : History → ℕ
signings [] = 0
signings (signed req r ∷ h) = suc (signings h)
signings (clock_read t ∷ h) = signings h
signings (context_checked b ∷ h) = signings h
signings (exchanged req o ∷ h) = signings h

-- At most so many of each.
pub record Within (posts payments : ℕ) (w : World) : Type 0 where
  pub posted : exchanges w.history ≤ posts
  pub paid : signings w.history ≤ payments

-- An action that adds at most so many of each, whether it returns or fails.
abbrev pub Adds : {A : Type 0} → M A → ℕ → ℕ → Type 0
Adds m p s =
    (a b : ℕ) → Contract (Within a b) m (λ _. Within (a + p) (b + s)) (λ _. Within (a + p) (b + s))

pub widen : {A : Type 0} {m : M A} (p s p' s' : ℕ) → p ≤ p' → s ≤ s' → Adds m p s → Adds m p' s'
widen p s p' s' hp hs k a b = Contract-loosen (k a b) (λ x w i. omega arith) (λ e w i. omega arith)

pub Adds-bind :
    {A B : Type 0} (m : M A) (f : A → M B) (p s p' s' : ℕ)
    → Adds m p s
    → ((x : A) → Adds (f x) p' s')
    → Adds (m >>= f) (p + p') (s + s')
Adds-bind m f p s p' s' km kf a b =
    Contract-bind m f (Contract-loosen (km a b) (λ x w i. i) (λ e w i. omega arith))
      λ x. Contract-loosen (kf x (a + p) (b + s)) (λ y w i. omega arith) (λ e w i. omega arith)

pub Adds-pure : {A : Type 0} (x : A) → Adds (pure x) 0 0
Adds-pure x a b = Contract-pure x (λ w i. omega arith)

pub Adds-if :
    {A : Type 0} (b : Bool) (m : M A) (x : A) (n : ℕ)
    → Adds m (2 * n) n
    → Adds (if b then m else pure x) (2 * (if b then n else 0)) (if b then n else 0)
Adds-if true m x n k = k
Adds-if false m x n k = Adds-pure x

pub Adds-raise : {A : Type 0} (e : Error) → Adds (raise {A = A} e) 0 0
Adds-raise e a b = Contract-raise e (λ w i. omega arith)

pub Adds-lift : {A : Type 0} (r : Result A) → Adds (lift r) 0 0
Adds-lift r a b = Contract-lift r (λ x e w i. omega arith) (λ e _ w i. omega arith)

pub unconditional :
    {A : Type 0} (I : World → Type 0) (r : Result A) (w : World)
    → Outcome (λ _. I) (λ _. I) r w
    → I w
unconditional I (ok r) w i = i
unconditional I (err e) w i = i

module _ (env : Environment) where
  pub exchange-Adds : (req : HttpRequest) → Adds (exchange env req) 1 0
  unfolding exchange note
  exchange-Adds req a b = record { at = λ w i. omega arith }

  pub sign-Adds : (req : SignRequest) → Adds (sign env req) 0 1
  unfolding sign note
  sign-Adds req a b = record { at = λ w i. either (env.signer w.history req) _ (omega arith) }
    where
      either :
          (r : Result PaymentPayload) (w : World)
          → Within (a + 0) (b + 1) w
          → Outcome (λ _. Within (a + 0) (b + 1)) (λ _. Within (a + 0) (b + 1)) r w
      either (ok payload) w i = i
      either (err e) w i = i
