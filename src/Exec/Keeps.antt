-- ===== src/Exec/Keeps.antt =====
-- Contracts of actions, one rule for each way to build an action.
use solvela_go.Base.{Bool, true, false, ◌≡◌, refl, sym, if◌then◌else◌}
use mathlib.Core.Path.{subst}
use solvela_go.Errors.{Error, Result, ok, err}
use solvela_go.Exec.{World, M, continue, ◌>>=◌, pure, raise, lift}

-- What holds of a result and the world behind it: `Q` of what was returned, `E` of an error.
abbrev pub Outcome {ℓ κ} :
    {A : Type ℓ} → (A → World → Type κ) → (Error → World → Type κ) → Result A → World → Type κ
Outcome Q E (ok a) w = Q a w
Outcome Q E (err e) w = E e w

-- From a world with `P` the action returns with `Q` or fails with `E`.
pub record Contract {ℓ κ} {A : Type ℓ} (P : World → Type κ) (m : M A) (Q : A → World → Type κ)
    (E : Error → World → Type κ) : Type (ℓ ⊔ κ) where
  pub at : (w : World) → P w → Outcome Q E (m w).0 (m w).1

module _ {ℓ κ} {A : Type ℓ} {P : World → Type κ} {Q : A → World → Type κ}
    {E : Error → World → Type κ} where
  pub Contract-pure : (a : A) → ((w : World) → P w → Q a w) → Contract P (pure a) Q E
  unfolding pure
  Contract-pure a h = record { at = h }

  pub Contract-raise : (e : Error) → ((w : World) → P w → E e w) → Contract P (raise e) Q E
  unfolding raise
  Contract-raise e h = record { at = h }

  lift_at :
      (r : Result A)
      → ((a : A) → r ≡ ok a → (w : World) → P w → Q a w)
      → ((e : Error) → r ≡ err e → (w : World) → P w → E e w)
      → (w : World) → P w
      → Outcome Q E r w
  lift_at (ok a) good bad w p = good a refl w p
  lift_at (err e) good bad w p = bad e refl w p

  pub Contract-lift :
      (r : Result A)
      → ((a : A) → r ≡ ok a → (w : World) → P w → Q a w)
      → ((e : Error) → r ≡ err e → (w : World) → P w → E e w)
      → Contract P (lift r) Q E
  unfolding lift
  Contract-lift r good bad = record { at = lift_at r good bad }

  pub Contract-if :
      (b : Bool) (m n : M A)
      → (b ≡ true → Contract P m Q E)
      → (b ≡ false → Contract P n Q E)
      → Contract P (if b then m else n) Q E
  Contract-if true m n km kn = km refl
  Contract-if false m n km kn = kn refl

module _ {ℓ κ μ} {A : Type ℓ} {B : Type μ} {Q : A → World → Type κ} {R : B → World → Type κ}
    {E : Error → World → Type κ} where
  continue_at :
      (r : Result A) (f : A → M B) (w : World)
      → Outcome Q E r w
      → ((a : A) → Contract (Q a) (f a) R E)
      → Outcome R E (continue r f w).0 (continue r f w).1
  continue_at (ok a) f w q k = (k a).at w q
  continue_at (err e) f w q k = q

  pub Contract-bind :
      {P : World → Type κ} (m : M A) (f : A → M B)
      → Contract P m Q E
      → ((a : A) → Contract (Q a) (f a) R E)
      → Contract P (m >>= f) R E
  unfolding ◌>>=◌
  Contract-bind m f km kf = record { at = λ w p. continue_at (m w).0 f (m w).1 (km.at w p) kf }

module _ {ℓ κ} {A : Type ℓ} {Q R : A → World → Type κ} {E F : Error → World → Type κ} where
  loosened :
      (r : Result A) (w : World)
      → ((a : A) (w : World) → Q a w → R a w)
      → ((e : Error) (w : World) → E e w → F e w)
      → Outcome Q E r w
      → Outcome R F r w
  loosened (ok a) w good bad o = good a w o
  loosened (err e) w good bad o = bad e w o

  pub Contract-loosen :
      {P : World → Type κ} {m : M A}
      → Contract P m Q E
      → ((a : A) (w : World) → Q a w → R a w)
      → ((e : Error) (w : World) → E e w → F e w)
      → Contract P m R F
  Contract-loosen {m} k good bad = record {
    at = λ w p. loosened (m w).0 (m w).1 good bad (k.at w p);
  }

module _ {ℓ} {A : Type ℓ} (m : M A) (Q : A → World → Type 0) (E : Error → World → Type 0) where
  -- The contract of a run from one world
  pub Contract-at :
      (w : World) → Outcome Q E (m w).0 (m w).1 → Contract (λ (v : World). v ≡ w) m Q E
  Contract-at w o = record { at = λ v same. subst (λ v. Outcome Q E (m v).0 (m v).1) (sym same) o }
