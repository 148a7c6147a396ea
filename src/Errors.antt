-- ===== src/Errors.antt =====
-- errors.go: the typed errors, as one sum. The text of a `ClientError` is kept as the pieces that
-- `fmt.Sprintf` puts together, each value beside the verb that prints it.
pub mod Text
use solvela_go.Base.{Bytes, ℕ, ℤ, List, ◌≡◌, refl, ◌⊎◌, inl, inr}
use Prim.Native.String.{String}
use solvela_go.Types.Chat.{ChatResponse}
use solvela_go.Types.Payment.{PaymentRequired}

-- How `strconv.ParseUint` fails.
pub data NumError : Type 0 where
  syntax_error range_error : NumError

-- A piece of a formatted message: plain text, `%s`, `%q`, `%d`, and `%v` of an error.
pub data Part : Type 0 where
  lit : String → Part
  str : Bytes → Part
  quoted : Bytes → Part
  decimal : ℕ → Part
  num_error : NumError → Part
  cause : Bytes → Part
  -- `%.1f` of the seconds of a duration
  seconds : ℤ → Part

abbrev pub Message : Type 0
Message = List Part

pub data DegradedReason : Type 0 where
  empty_content known_error_phrase repetitive_loop truncated_mid_word : DegradedReason

pub data Error : Type 0 where
  client_error : Message → Error
  wallet_error : Message → Error
  signer_error : Bytes → Error
  insufficient_balance : ℕ → ℕ → Error
  gateway_error : ℕ → Message → Error
  -- a `GatewayError` whose message is a text and then that of another error
  gateway_failure : ℕ → Bytes → Error → Error
  payment_required_error : PaymentRequired → Error
  payment_rejected : Bytes → Error
  recipient_mismatch : Bytes → Bytes → Error
  amount_exceeds_max : ℕ → ℕ → Error
  -- `TimeoutSecs`, kept as the duration that `Seconds` is taken of
  timeout_error : ℤ → Error
  quality_degraded : DegradedReason → ChatResponse → Error
  -- an error of the standard library or of a caller's function, by its text
  foreign : Bytes → Error
  -- `fmt.Errorf("…: %w", err)`
  wrapped : Bytes → Error → Error

pub data Result {ℓ} (A : Type ℓ) : Type ℓ where
  ok : A → Result A
  err : Error → Result A

pub Result-cases {ℓ} :
    {A : Type ℓ} (r : Result A) → ((a : A) × (r ≡ ok a)) ⊎ ((e : Error) × (r ≡ err e))
Result-cases (ok a) = inl (a, refl)
Result-cases (err e) = inr (e, refl)

-- `if err != nil { return err }` between two calls.
module _ {ℓ κ} {A : Type ℓ} {B : Type κ} where
  infixl 5 ◌>>=◌
  abbrev pub ◌>>=◌ : Result A → (A → Result B) → Result B
  ◌>>=◌ (err why) next = err why
  ◌>>=◌ (ok value) next = next value

  infixl 5 ◌>>◌
  abbrev pub ◌>>◌ : Result A → Result B → Result B
  ◌>>◌ first second = first >>= λ _. second

  -- If both calls return, so does the first, and the second on what it returned.
  pub both_returned :
      (first : Result A) (next : A → Result B) {last : B}
      → first >>= next ≡ ok last
      → (value : A) × (first ≡ ok value) × (next value ≡ ok last)
  both_returned (err why) next returned = cc
  both_returned (ok value) next returned = (value, refl, returned)
