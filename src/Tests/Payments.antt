-- ===== src/Tests/Payments.antt =====
-- The choice of an offer and its checks at concrete inputs.
use solvela_go.Base.{◌≡◌, refl, ◌↔◌, ◌⊎◌, some, [], codes, true, bytes_eq}
use solvela_go.Errors.{ok}
use solvela_go.Payment.{find_compatible_scheme, validate_payment, validate_resource_origin}
use solvela_go.Payment.Selection.{IsChoice, find_compatible_scheme-IsChoice}
use solvela_go.Payment.Validation.{
  IsPayable, SameOrigin, validate_payment_iff, validate_resource_origin_iff,
}
use solvela_go.Strings.{trim_space}
use solvela_go.Amount.{parse_amount}
use solvela_go.Client.{prepare_payment, offered}
use solvela_go.Client.Offers.{IsAuthorised, prepare_payment-IsAuthorised}
use solvela_go.Exec.{SignRequest}
use solvela_go.Tests.Fixtures.{gateway, config, offer, demand, lib, client}

validate_payment_iff_example : (validate_payment config offer ≡ ok tt) ↔ IsPayable config offer
validate_payment_iff_example = validate_payment_iff config offer

validate_resource_origin_iff_example :
    (validate_resource_origin lib.parse_url config gateway ≡ ok tt)
    ↔ ((gateway ≡ []) ⊎ SameOrigin (lib.parse_url gateway) (lib.parse_url config.gateway_url))
validate_resource_origin_iff_example = validate_resource_origin_iff lib.parse_url config gateway

find_compatible_scheme-IsChoice_example : IsChoice demand.accepts (find_compatible_scheme demand)
find_compatible_scheme-IsChoice_example = find_compatible_scheme-IsChoice demand

-- The exact scheme is preferred though the other one comes first.
exact_chosen : find_compatible_scheme demand ≡ some offer
unfolding find_compatible_scheme codes bytes_eq
exact_chosen = refl

abbrev asked : SignRequest
asked = record {
  amount_atomic = 1000;
  recipient = codes "Merchant";
  resource = demand.resource;
  accepted = offer;
}

prepared : prepare_payment lib client demand ≡ ok asked
unfolding prepare_payment find_compatible_scheme codes offered bytes_eq validate_payment
    parse_amount trim_space validate_resource_origin
prepared = refl

prepare_payment-IsAuthorised_example :
    IsAuthorised lib config asked
    × IsChoice demand.accepts (some offer)
    × (client.has_signer ≡ true)
prepare_payment-IsAuthorised_example = prepare_payment-IsAuthorised lib client demand prepared
