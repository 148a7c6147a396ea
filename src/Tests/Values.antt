-- ===== src/Tests/Values.antt =====
-- Amounts, answers, addresses and descriptions at concrete inputs.
use solvela_go.Base.{Bytes, ◌<◌, ◌≤◌, ◌≡◌, ◌≢◌, refl, ◌↔◌, [], ◌∷◌, codes, All, map, bytes_eq}
use solvela_go.Errors.{ok}
use solvela_go.Types.Chat.{role_user, role_assistant}
use solvela_go.Types.Payment.{PaymentAccept}
use solvela_go.Strings.{trim_space}
use solvela_go.Amount.{max_uint64, parse_amount}
use solvela_go.Amount.Laws.{IsDigit, value, parse_amount_iff}
use solvela_go.Wire.{unmarshal_accepts}
use solvela_go.Wire.Laws.{IsKnown, wire_of, unmarshal_accepts_iff}
use solvela_go.Url.{Url, address, passed, validate_gateway_url}
use solvela_go.Url.Laws.{IsSecure, validate_gateway_url_iff}
use solvela_go.Keys.{cache_key}
use solvela_go.Keys.Laws.{merge, cache_key-merge}
use solvela_go.Tests.Fixtures.{lib, accept, offer, said}

abbrev digits : Bytes
digits = codes " 42\n"

parse_amount_iff_example : (parse_amount digits ≡ ok 42) ↔ (
    (trim_space digits ≢ [])
    × All IsDigit (trim_space digits)
    × (value 0 (trim_space digits) ≡ 42)
    × (0 < 42)
    × (42 ≤ max_uint64))
parse_amount_iff_example = parse_amount_iff digits 42

amount_read : parse_amount digits ≡ ok 42
unfolding parse_amount codes bytes_eq trim_space
amount_read = refl

abbrev apology : Bytes
apology = codes "I cannot answer this."

unmarshal_accepts_iff_example : (unmarshal_accepts (accept ∷ []) ≡ ok (offer ∷ [])) ↔ (
    ((accept ∷ []) ≡ map wire_of (offer ∷ []))
    × All (λ (a : PaymentAccept). IsKnown a.scheme) (offer ∷ []))
unmarshal_accepts_iff_example = unmarshal_accepts_iff (accept ∷ []) (offer ∷ [])

abbrev local : Url
local = record {
  scheme = codes "http";
  host = codes "localhost:8402";
  hostname = codes "localhost";
}

validate_gateway_url_iff_example :
    (validate_gateway_url (address local) ≡ passed)
    ↔ ((u : Url) × (address local ≡ address u) × IsSecure u)
validate_gateway_url_iff_example = validate_gateway_url_iff (address local)

cache_key-merge_example :
    cache_key lib
      (codes "m")
      (said role_user (codes "hi") ∷ said role_assistant (codes "hello") ∷ [])
    ≡ cache_key lib
        (codes "m")
        (merge (said role_user (codes "hi")) (said role_assistant (codes "hello")) ∷ [])
cache_key-merge_example =
    cache_key-merge lib (codes "m") (said role_user (codes "hi"))
      (said role_assistant (codes "hello")) []
