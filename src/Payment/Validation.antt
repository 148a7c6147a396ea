-- ===== src/Payment/Validation.antt =====
-- What a payment that passes the checks is like.
use solvela_go.Base.{
  Bytes, ℕ, ◌≤◌, ◌≡◌, refl, ◌↔◌, ◌⊎◌, inl, inr, Option, none, some, [], arith, bytes_eq,
}
use solvela_go.Errors.{ok, Result-cases}
use solvela_go.Types.Payment.{PaymentAccept}
use solvela_go.Config.{ClientConfig, usdc_mint, solana_network}
use solvela_go.Url.{UrlResult, address, malformed, Url}
use solvela_go.Amount.{parse_amount}
use solvela_go.Payment.{validate_payment, check_cap, validate_resource_origin, parsed_origins}
use solvela_go.Payment.{compare_origins}

-- A payment within the limits of the configuration: to the expected recipient, if one is
-- configured, in USDC on Solana, of an amount that can be read and does not pass a configured cap.
pub record IsPayable (config : ClientConfig) (accepted : PaymentAccept) : Type 0 where
  pub max : ℕ
  pub amount : ℕ
  pub to_recipient :
      (config.expected_recipient ≡ []) ⊎ (accepted.pay_to ≡ config.expected_recipient)
  pub on_solana : accepted.network ≡ solana_network
  pub in_usdc : accepted.asset ≡ usdc_mint
  pub capped : config.max_payment_amount ≡ some max
  pub readable : parse_amount accepted.amount ≡ ok amount
  pub within : amount ≤ max

check_cap_ok :
    (cap : Option ℕ) (a : PaymentAccept)
    → check_cap cap a ≡ ok tt
    → (max : ℕ) × (amount : ℕ) × (cap ≡ some max)
      × (parse_amount a.amount ≡ ok amount)
      × (amount ≤ max)
unfolding check_cap
check_cap_ok none a h = cc
check_cap_ok (some max) a h = elim (Result-cases (parse_amount a.amount)) [
  | inl (amount, read) ↦ (max, amount, refl, read, ground arith)
  | inr (e, refused) ↦ absurd (cc (rw refused at h))
]

passes :
    (config : ClientConfig) (a : PaymentAccept)
    → validate_payment config a ≡ ok tt
    → ((config.expected_recipient ≡ []) ⊎ (a.pay_to ≡ config.expected_recipient))
      × (a.network ≡ solana_network)
      × (a.asset ≡ usdc_mint)
      × (check_cap config.max_payment_amount a ≡ ok tt)
unfolding validate_payment
passes config a h = ground arith

validate_payment_sound :
    (config : ClientConfig) (a : PaymentAccept)
    → validate_payment config a ≡ ok tt
    → IsPayable config a
validate_payment_sound config a h =
    let (recipient, network, asset, cap) = passes config a h in
    let (max, amount, capped, readable, within) = check_cap_ok config.max_payment_amount a cap in
    record {
      max = max;
      amount = amount;
      to_recipient = recipient;
      on_solana = network;
      in_usdc = asset;
      capped = capped;
      readable = readable;
      within = within;
    }

validate_payment_complete :
    (config : ClientConfig) (a : PaymentAccept)
    → IsPayable config a
    → validate_payment config a ≡ ok tt
unfolding validate_payment check_cap
validate_payment_complete config a p = ground arith

-- The checks accept a payment exactly if it is within the limits of the configuration; in
-- particular nothing is accepted while no cap is configured.
pub validate_payment_iff :
    (config : ClientConfig) (a : PaymentAccept)
    → (validate_payment config a ≡ ok tt) ↔ IsPayable config a
validate_payment_iff config a =
    (validate_payment_sound config a, validate_payment_complete config a)

-- An address of the gateway: both can be parsed, and they agree in scheme and host.
pub record SameOrigin (r g : UrlResult) : Type 0 where
  pub resource : Url
  pub gateway : Url
  pub resource_parsed : r ≡ address resource
  pub gateway_parsed : g ≡ address gateway
  pub scheme : resource.scheme ≡ gateway.scheme
  pub host : resource.host ≡ gateway.host

origins_sound : (s t : Bytes) (r g : UrlResult) → parsed_origins s t r g ≡ ok tt → SameOrigin r g
unfolding parsed_origins compare_origins
origins_sound s t (malformed why) g h = cc
origins_sound s t (address ru) (malformed why) h = cc
origins_sound s t (address ru) (address gu) h = record {
  resource = ru;
  gateway = gu;
  resource_parsed = refl;
  gateway_parsed = refl;
  scheme = ground arith;
  host = ground arith;
}

origins_complete : (s t : Bytes) (r g : UrlResult) → SameOrigin r g → parsed_origins s t r g ≡ ok tt
unfolding parsed_origins compare_origins
origins_complete s t r g o = ground arith

-- The address in an offer is accepted exactly if it is absent, or it and the gateway's own can be
-- parsed and agree in scheme and host.
pub validate_resource_origin_iff :
    (parse_url : Bytes → UrlResult) (config : ClientConfig) (resource_url : Bytes)
    → (validate_resource_origin parse_url config resource_url ≡ ok tt)
      ↔ ((resource_url ≡ []) ⊎ SameOrigin (parse_url resource_url) (parse_url config.gateway_url))
unfolding validate_resource_origin
validate_resource_origin_iff parse_url config resource_url =
    let r = parse_url resource_url in
    let g = parse_url config.gateway_url in
    ground (
      arith,
      origins_sound resource_url config.gateway_url r g,
      origins_complete resource_url config.gateway_url r g,
    )
