-- ===== src/Smoke/Checks.antt =====
-- What the checks of the smoke test accept.
use solvela_go.Base.{
  Bytes, ℕ, ◌≤◌, ◌<◌, ◌≡◌, ◌≢◌, refl, sym, ◌↔◌, ◌⊎◌, ℤ, pos, negsuc, Bool, true, none, List, [],
  ◌∷◌, any, length, codes, All, nat_eq, bytes_eq, arith,
}
use mathlib.Core.Path.{subst}
use solvela_go.Types.Payment.{PaymentAccept, PaymentRequired}
use solvela_go.Wire.{ModelInfo}
use solvela_go.Amount.{Parsed, parsed, refused, parse_uint, max_uint64}
use solvela_go.Amount.Laws.{IsDigit, value, parse_uint_iff}
use solvela_go.Config.{usdc_mint, solana_network}
use solvela_go.Smoke.{
  is_base58_byte, all_bytes, matches_pubkey, is_digit, matches_amount, streams, is_priced,
  check_registry, is_positive, is_spoken, check_drift, check_demand,
}

-- Some element has the property.
abbrev pub Some {ℓ} : {A : Type ℓ} → (A → Type 0) → List A → Type 0
Some P [] = ⊥
Some P (x ∷ xs) = P x ⊎ Some P xs

any_iff {ℓ} :
    {A : Type ℓ} (test : A → Bool) (xs : List A)
    → (any test xs ≡ true) ↔ Some (λ x. test x ≡ true) xs
any_iff test [] = (λ h. cc, λ h. absurd h)
any_iff test (x ∷ xs) = ground (arith, any_iff test xs)

-- A letter or digit, and none of the four that look like another.
pub record IsBase58 (c : ℕ) : Type 0 where
  pub alphanumeric :
      ((b'0' ≤ c) × (c ≤ b'9')) ⊎ ((b'A' ≤ c) × (c ≤ b'Z')) ⊎ ((b'a' ≤ c) × (c ≤ b'z'))
  pub no_zero : c ≢ b'0'
  pub no_capital_o : c ≢ b'O'
  pub no_capital_i : c ≢ b'I'
  pub no_small_l : c ≢ b'l'

IsBase58-sound : (c : ℕ) → is_base58_byte c ≡ true → IsBase58 c
unfolding is_base58_byte
IsBase58-sound c h = ground arith

IsBase58-complete : (c : ℕ) → IsBase58 c → is_base58_byte c ≡ true
unfolding is_base58_byte
IsBase58-complete c h = ground arith

all_bytes_iff :
    (test : ℕ → Bool) (P : ℕ → Type 0)
    → ((c : ℕ) → (test c ≡ true) ↔ P c)
    → (s : Bytes) → (all_bytes test s ≡ true) ↔ All P s
unfolding all_bytes
all_bytes_iff test P h [] = (λ e. tt, λ a. refl)
all_bytes_iff test P h (c ∷ s) = ground (arith, h c, all_bytes_iff test P h s)

-- An address of Solana.
pub record IsPubkey (s : Bytes) : Type 0 where
  pub long_enough : 32 ≤ length s
  pub short_enough : length s ≤ 44
  pub alphabet : All IsBase58 s

matches_pubkey_iff : (s : Bytes) → (matches_pubkey s ≡ true) ↔ IsPubkey s
unfolding matches_pubkey
matches_pubkey_iff s =
    let alphabet =
      all_bytes_iff is_base58_byte IsBase58 (λ c. (IsBase58-sound c, IsBase58-complete c)) s in
    (
      λ h. record {
        long_enough = ground arith;
        short_enough = ground arith;
        alphabet = ground (arith, alphabet);
      },
      λ p. ground (arith, alphabet, p.long_enough, p.short_enough, p.alphabet),
    )

-- A positive amount of 64 bits, in decimal.
pub record IsPositive (s : Bytes) : Type 0 where
  pub digits : All IsDigit s
  pub positive : 0 < value 0 s
  pub fits : value 0 s ≤ max_uint64

matches_amount_iff : (s : Bytes) → (matches_amount s ≡ true) ↔ ((s ≢ []) × All IsDigit s)
unfolding matches_amount
matches_amount_iff s = ground (arith, all_bytes_iff is_digit IsDigit is_digit_iff s)
  where
    is_digit_iff : (c : ℕ) → (is_digit c ≡ true) ↔ IsDigit c
    is_digit_iff c = ground arith

is_positive_iff : (p : Parsed) → (is_positive p ≡ true) ↔ ((n : ℕ) × (p ≡ parsed n) × (0 < n))
unfolding is_positive
is_positive_iff (parsed n) = (λ h. (n, refl, ground arith), λ (m, same, more). ground arith)
is_positive_iff (refused why) = (λ h. cc, λ (m, same, more). cc)

amount_sound :
    (s : Bytes) → matches_amount s ≡ true → is_positive (parse_uint s) ≡ true → IsPositive s
amount_sound s shape more =
    let (n, read, big) = (is_positive_iff (parse_uint s)).0 more in
    let (_, digits, exact, fits) = (parse_uint_iff s n).0 read in
    record { digits = digits; positive = omega arith; fits = omega arith }

amount_complete :
    (s : Bytes) → IsPositive s → (matches_amount s ≡ true) × (is_positive (parse_uint s) ≡ true)
amount_complete [] p = absurd (omega (arith, p.positive))
amount_complete (c ∷ s) p =
    let filled : (c ∷ s) ≢ [] = λ h. cc in
    (
      (matches_amount_iff (c ∷ s)).1 (filled, p.digits),
      (is_positive_iff (parse_uint (c ∷ s))).1 (
        value 0 (c ∷ s),
        (parse_uint_iff (c ∷ s) (value 0 (c ∷ s))).1 (filled, p.digits, refl, p.fits),
        p.positive,
      ),
    )

-- The demand and its first accept, as the drift checks want them.
pub record IsExact (pr : PaymentRequired) (accept : PaymentAccept) : Type 0 where
  pub recipient : IsPubkey accept.pay_to
  pub amount : IsPositive accept.amount
  pub network : accept.network ≡ solana_network
  pub asset : accept.asset ≡ usdc_mint
  pub currency : pr.cost_breakdown.currency ≡ codes "USDC"
  pub version : pr.x402_version ≡ pos 2

is_spoken_iff : (v : ℤ) → (is_spoken v ≡ true) ↔ (v ≡ pos 2)
unfolding is_spoken
is_spoken_iff (pos n) = ground arith
is_spoken_iff (negsuc n) = (λ h. cc, λ h. cc)

check_drift_sound :
    (pr : PaymentRequired) (a : PaymentAccept) → check_drift pr a ≡ none → IsExact pr a
unfolding check_drift
check_drift_sound pr a h = record {
  recipient = (matches_pubkey_iff a.pay_to).0 (ground arith);
  amount = amount_sound a.amount (ground arith) (ground arith);
  network = ground arith;
  asset = ground arith;
  currency = ground arith;
  version = (is_spoken_iff pr.x402_version).0 (ground arith);
}

pubkey_filled : (s : Bytes) → IsPubkey s → s ≢ []
pubkey_filled [] p = absurd (omega (arith, p.long_enough))
pubkey_filled (c ∷ s) p = λ h. cc

check_drift_complete :
    (pr : PaymentRequired) (a : PaymentAccept) → IsExact pr a → check_drift pr a ≡ none
unfolding check_drift
check_drift_complete pr a e = ground (
  arith,
  pubkey_filled a.pay_to e.recipient,
  (matches_pubkey_iff a.pay_to).1 e.recipient,
  amount_complete a.amount e.amount,
  e.network,
  e.asset,
  e.currency,
  (is_spoken_iff pr.x402_version).1 e.version,
)

-- The demand names a payment, and the first one is as the drift checks want it.
pub record IsAsked (pr : PaymentRequired) : Type 0 where
  pub first : PaymentAccept
  pub others : List PaymentAccept
  pub splits : pr.accepts ≡ first ∷ others
  pub exact : IsExact pr first

pub check_demand_iff :
    (pr : PaymentRequired) (accepts : List PaymentAccept)
    → (check_demand pr accepts ≡ none) ↔ (
        (a : PaymentAccept) × (others : List PaymentAccept) × (accepts ≡ a ∷ others) × IsExact pr a)
unfolding check_demand
check_demand_iff pr [] = (λ h. cc, λ (a, others, same, e). cc)
check_demand_iff pr (a ∷ accepts) = (
  λ h. (a, accepts, refl, check_drift_sound pr a h),
  λ (b, others, same, e). check_drift_complete pr a (subst (IsExact pr) (sym (head_eq same)) e),
)
  where
    head_eq : {a b : PaymentAccept} {xs ys : List PaymentAccept} → a ∷ xs ≡ b ∷ ys → a ≡ b
    head_eq h = cc

-- A registry with a model that streams, one that has a price, and a first model that is described.
pub record IsHealthy (sample : ModelInfo) (models : List ModelInfo) : Type 0 where
  pub streaming : Some (λ (m : ModelInfo). m.supports_streaming ≡ true) models
  pub priced : Some (λ (m : ModelInfo). is_priced m ≡ true) models
  pub named : sample.display_name ≢ []
  pub provided : sample.provider ≢ []

pub check_registry_iff :
    (sample : ModelInfo) (models : List ModelInfo)
    → (check_registry sample models ≡ none) ↔ IsHealthy sample models
unfolding check_registry
check_registry_iff sample models =
    let streaming = any_iff streams models in
    let priced = any_iff is_priced models in
    (
      λ h. record {
        streaming = streaming.0 (ground arith);
        priced = priced.0 (ground arith);
        named = ground arith;
        provided = ground arith;
      },
      λ good.
          ground
            (arith, streaming.1 good.streaming, priced.1 good.priced, good.named, good.provided),
    )
