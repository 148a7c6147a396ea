-- ===== src/Url/Laws.antt =====
-- Which addresses of the gateway are accepted.
use solvela_go.Base.{Bytes, ◌≡◌, refl, sym, ◌⊎◌, ◌↔◌, bytes_eq, codes, arith}
use mathlib.Core.Path.{subst}
use solvela_go.Url.{Url, UrlResult, address, malformed, passed, check_scheme, validate_gateway_url}

abbrev pub IsLoopback : Bytes → Type 0
IsLoopback host = (host ≡ codes "localhost") ⊎ (host ≡ codes "127.0.0.1") ⊎ (host ≡ codes "::1")

-- Encrypted, or on the machine itself.
abbrev pub IsSecure : Url → Type 0
IsSecure u = (u.scheme ≡ codes "https") ⊎ ((u.scheme ≡ codes "http") × IsLoopback u.hostname)

http-https : ¬ (codes "http" ≡ codes "https")
unfolding codes
http-https h = cc

check_scheme_iff : (u : Url) → (check_scheme u ≡ passed) ↔ IsSecure u
unfolding check_scheme
check_scheme_iff u = ground (arith, http-https)

opened : {u v : Url} → address u ≡ address v → u ≡ v
opened h = cc

-- An address is accepted exactly if it can be parsed and is one of https, or of http and of the
-- machine itself by one of its three names.
pub validate_gateway_url_iff :
    (r : UrlResult) → (validate_gateway_url r ≡ passed) ↔ ((u : Url) × (r ≡ address u) × IsSecure u)
unfolding validate_gateway_url
validate_gateway_url_iff (malformed why) = (λ h. cc, λ (u, h, _). cc)
validate_gateway_url_iff (address u) = (
  λ h. (u, refl, (check_scheme_iff u).0 h),
  λ (v, same, secure). (check_scheme_iff u).1 (subst IsSecure (sym (opened same)) secure),
)
