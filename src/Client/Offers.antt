-- ===== src/Client/Offers.antt =====
-- What the signer can be asked to sign.
use solvela_go.Base.{
  ℕ, ◌≤◌, ◌<◌, ◌≡◌, refl, sym, ◌∙◌, ap, ◌⊎◌, true, Option, none, some, [], inl, inr, Bool-cases,
  arith, if◌then◌else◌,
}
use mathlib.Core.Path.{subst}
use solvela_go.Errors.{ok, err, payment_required_error, both_returned}
use solvela_go.Types.Payment.{PaymentAccept, PaymentRequired}
use solvela_go.Config.{ClientConfig, usdc_mint, solana_network}
use solvela_go.Payment.{find_compatible_scheme, validate_payment, validate_resource_origin}
use solvela_go.Payment.Selection.{IsChoice, find_compatible_scheme-IsChoice}
use solvela_go.Payment.Validation.{validate_payment_iff, SameOrigin, validate_resource_origin_iff}
use solvela_go.Amount.{parse_amount}
use solvela_go.Amount.Laws.{parse_amount_iff}
use solvela_go.Library.{Library}
use solvela_go.Client.{SolvelaClient, check_offer, offered, prepare_payment}
use solvela_go.Exec.{SignRequest}

-- A payment that the configuration allows: a positive amount within the configured cap, which is the
-- amount of the offer, to the offer's recipient, who is the expected one if one is configured; in
-- USDC on Solana; for a resource of the gateway's own origin, if it names one.
pub record IsAuthorised (lib : Library) (config : ClientConfig) (req : SignRequest) : Type 0 where
  pub max : ℕ
  pub capped : config.max_payment_amount ≡ some max
  pub within : req.amount_atomic ≤ max
  pub positive : 0 < req.amount_atomic
  pub offered_amount : parse_amount req.accepted.amount ≡ ok req.amount_atomic
  pub offered_recipient : req.recipient ≡ req.accepted.pay_to
  pub to_recipient : (config.expected_recipient ≡ []) ⊎ (req.recipient ≡ config.expected_recipient)
  pub on_solana : req.accepted.network ≡ solana_network
  pub in_usdc : req.accepted.asset ≡ usdc_mint
  pub own_origin :
      (req.resource.url ≡ [])
      ⊎ SameOrigin (lib.parse_url req.resource.url) (lib.parse_url config.gateway_url)

check_offer-IsAuthorised :
    (lib : Library) (c : SolvelaClient) (pr : PaymentRequired) (a : PaymentAccept)
    {req : SignRequest}
    → check_offer lib c pr a ≡ ok req
    → IsAuthorised lib c.config req × (req.accepted ≡ a)
unfolding check_offer
check_offer-IsAuthorised lib c pr a {req} h =
    let (_, valid, h1) = both_returned (validate_payment c.config a) _ h in
    let (_, origin, h2) =
      both_returned (validate_resource_origin lib.parse_url c.config pr.resource.url) _ h1 in
    let (amount, read, h3) = both_returned (parse_amount a.amount) _ h2 in
    let p = (validate_payment_iff c.config a).0 valid in
    let own = (validate_resource_origin_iff lib.parse_url c.config pr.resource.url).0 origin in
    let (_, _, _, positive, _) = (parse_amount_iff a.amount amount).0 read in
    let asked : SignRequest = record {
      amount_atomic = amount;
      recipient = a.pay_to;
      resource = pr.resource;
      accepted = a;
    } in
    let same : asked ≡ req = cc h3 in
    let amounts : p.amount ≡ amount = cc (p.readable, read) in
    subst (λ r. IsAuthorised lib c.config r × (r.accepted ≡ a)) same
      (
        record {
          max = p.max;
          capped = p.capped;
          within = omega (arith, p.within, amounts);
          positive = positive;
          offered_amount = read;
          offered_recipient = refl;
          to_recipient = p.to_recipient;
          on_solana = p.on_solana;
          in_usdc = p.in_usdc;
          own_origin = own;
        },
        refl,
      )

offered-IsAuthorised :
    (lib : Library) (c : SolvelaClient) (pr : PaymentRequired) (found : Option PaymentAccept)
    {req : SignRequest}
    → offered lib c pr found ≡ ok req
    → (a : PaymentAccept) × (found ≡ some a) × IsAuthorised lib c.config req × (req.accepted ≡ a)
unfolding offered
offered-IsAuthorised lib c pr none h = cc
offered-IsAuthorised lib c pr (some a) h =
    let (authorised, same) = check_offer-IsAuthorised lib c pr a h in (a, refl, authorised, same)

-- Whatever the gateway demands, what the signer is asked to sign is a payment that the configuration
-- allows, and the offer that is chosen for it; without a signer nothing is.
pub prepare_payment-IsAuthorised :
    (lib : Library) (c : SolvelaClient) (pr : PaymentRequired) {req : SignRequest}
    → prepare_payment lib c pr ≡ ok req
    → IsAuthorised lib c.config req
      × IsChoice pr.accepts (some req.accepted)
      × (c.has_signer ≡ true)
unfolding prepare_payment
prepare_payment-IsAuthorised lib c pr {req} h = elim (Bool-cases c.has_signer) [
  | inr unsigned ↦ absurd (cc (rw unsigned at h))
  | inl has ↦
      let offers = offered lib c pr (find_compatible_scheme pr) in
      let taken = ap (λ b. if b then offers else err (payment_required_error pr)) has in
      let (a, found, authorised, same) =
        offered-IsAuthorised lib c pr (find_compatible_scheme pr) (sym taken ∙ h) in
      let choice : IsChoice pr.accepts (some a) =
        rw found at (find_compatible_scheme-IsChoice pr) in
      (authorised, subst (λ x. IsChoice pr.accepts (some x)) (sym same) choice, has)
]
