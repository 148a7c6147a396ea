-- ===== src/Url.antt =====
-- What the program uses of `net/url`: an address taken apart, and `validateGatewayURL` of client.go.
pub mod Laws
use solvela_go.Base.{Bytes, ◌≡◌, ◌⊎◌, Bool, ◌&&◌, ◌||◌, not, Option, none, some, [], ◌∷◌, ◌==◌}
use solvela_go.Base.{bytes_eq, codes, if◌then◌else◌}
use solvela_go.Errors.{Result, ok, err, Error, Message, lit, str, quoted, cause}

-- The fields of `url.URL` that the program reads; `hostname` is what `u.Hostname()` returns.
pub record Url : Type 0 where
  pub scheme : Bytes
  pub host : Bytes
  pub hostname : Bytes

-- `url.Parse`: an address, or the text of the error.
pub data UrlResult : Type 0 where
  address : Url → UrlResult
  malformed : Bytes → UrlResult

pub data Check : Type 0 where
  passed : Check
  failed : Message → Check

abbrev is_loopback : Bytes → Bool
is_loopback host = host == codes "localhost" || host == codes "127.0.0.1" || host == codes "::1"

check_scheme : Url → Check
check_scheme u =
    if not (u.scheme == codes "http") && not (u.scheme == codes "https")
    then failed (lit "gateway URL must use http or https, got " ∷ quoted u.scheme ∷ [])
    else if u.scheme == codes "http" && not (is_loopback u.hostname)
    then failed (
        lit "gateway URL must use https:// for non-local endpoints, got "
        ∷ str u.scheme
        ∷ lit "://"
        ∷ str u.hostname
        ∷ [])
    else passed

unfoldable pub validate_gateway_url : UrlResult → Check
unfolding check_scheme
validate_gateway_url (malformed why) = failed (lit "invalid gateway URL: " ∷ cause why ∷ [])
validate_gateway_url (address u) = check_scheme u
