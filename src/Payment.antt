-- ===== src/Payment.antt =====
-- client.go: the choice of a payment scheme and the checks before anything is signed.
pub mod Selection
pub mod Validation
use solvela_go.Base.{Bytes, ℕ, Bool, ◌&&◌, ◌||◌, not, Option, none, some, List, [], ◌∷◌, ◌==◌}
use solvela_go.Base.{bytes_eq, codes, if◌then◌else◌, ltb}
use solvela_go.Errors.{Result, ok, err, ◌>>=◌, ◌>>◌, Error, client_error, recipient_mismatch}
use solvela_go.Errors.{amount_exceeds_max, lit, str, quoted, cause}
use solvela_go.Types.Payment.{Scheme, scheme_exact, scheme_escrow, PaymentAccept, PaymentRequired}
use solvela_go.Config.{ClientConfig, usdc_mint, solana_network}
use solvela_go.Url.{Url, UrlResult, address, malformed}
use solvela_go.Amount.{parse_amount}

unfoldable pub is_compatible_accept : PaymentAccept → Scheme → Bool
is_compatible_accept a scheme =
    a.scheme == scheme && a.network == solana_network && a.asset == usdc_mint

-- One of the two loops: the first compatible entry with the scheme.
unfoldable pub first_compatible : Scheme → List PaymentAccept → Option PaymentAccept
unfolding is_compatible_accept
first_compatible scheme [] = none
first_compatible scheme (a ∷ accepts) =
    if is_compatible_accept a scheme then some a else first_compatible scheme accepts

abbrev or_else : Option PaymentAccept → Option PaymentAccept → Option PaymentAccept
or_else (some a) other = some a
or_else none other = other

unfoldable pub find_compatible_scheme : PaymentRequired → Option PaymentAccept
unfolding first_compatible
find_compatible_scheme pr =
    or_else (first_compatible scheme_exact pr.accepts) (first_compatible scheme_escrow pr.accepts)

-- The cap of `validatePayment`; without one every payment is refused.
check_cap : Option ℕ → PaymentAccept → Result (Unit {0})
check_cap none accepted = err (
    client_error (
      lit
        "client misconfigured: MaxPaymentAmount must be set (use WithMaxPaymentAmount or DefaultConfig)"
      ∷ []))
check_cap (some max) accepted = do
  amount ← parse_amount accepted.amount
  if ltb max amount then err (amount_exceeds_max amount max) else ok tt

unfoldable pub validate_payment : ClientConfig → PaymentAccept → Result (Unit {0})
unfolding check_cap
validate_payment config accepted =
    if not (config.expected_recipient == []) && not (accepted.pay_to == config.expected_recipient)
    then err (recipient_mismatch config.expected_recipient accepted.pay_to)
    else if not (accepted.network == solana_network)
    then err (
        client_error (
          lit "unsupported network: "
          ∷ quoted accepted.network
          ∷ lit " (expected "
          ∷ quoted solana_network
          ∷ lit ")"
          ∷ []))
    else if not (accepted.asset == usdc_mint)
    then err (
        client_error (
          lit "unsupported asset: "
          ∷ quoted accepted.asset
          ∷ lit " (expected USDC mint "
          ∷ quoted usdc_mint
          ∷ lit ")"
          ∷ []))
    else check_cap config.max_payment_amount accepted

compare_origins : Url → Url → Result (Unit {0})
compare_origins ru gu =
    if not (ru.scheme == gu.scheme) || not (ru.host == gu.host)
    then err (
        client_error (
          lit "resource URL origin does not match configured gateway: resource="
          ∷ str ru.scheme
          ∷ lit "://"
          ∷ str ru.host
          ∷ lit " gateway="
          ∷ str gu.scheme
          ∷ lit "://"
          ∷ str gu.host
          ∷ []))
    else ok tt

-- `validateResourceOrigin`, over the two parsed addresses.
parsed_origins : Bytes → Bytes → UrlResult → UrlResult → Result (Unit {0})
parsed_origins resource_url gateway_url (malformed why) g =
    err
      (client_error (lit "invalid resource URL " ∷ quoted resource_url ∷ lit ": " ∷ cause why ∷ []))
parsed_origins resource_url gateway_url (address ru) (malformed why) =
    err (client_error (lit "invalid gateway URL " ∷ quoted gateway_url ∷ lit ": " ∷ cause why ∷ []))
parsed_origins resource_url gateway_url (address ru) (address gu) = compare_origins ru gu

unfoldable pub validate_resource_origin :
    (Bytes → UrlResult) → ClientConfig → Bytes → Result (Unit {0})
unfolding parsed_origins compare_origins
validate_resource_origin parse_url config resource_url =
    if resource_url == []
    then ok tt
    else parsed_origins resource_url config.gateway_url (parse_url resource_url)
        (parse_url config.gateway_url)
