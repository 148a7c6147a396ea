-- ===== src/Client/Construction/Ready.antt =====
-- What a new client is like.
use solvela_go.Base.{Bytes, ◌≡◌, refl, sym, ap, Bool, false, List, [], ◌⊎◌, inl, inr, Bool-cases}
use mathlib.Core.Path.{subst}
use solvela_go.Errors.{ok}
use solvela_go.Config.{ClientConfig, Setting, default_config, apply_all}
use solvela_go.Url.{Url, address, Check, passed, failed, validate_gateway_url}
use solvela_go.Url.Laws.{IsSecure, validate_gateway_url_iff}
use solvela_go.Cache.{new_response_cache}
use solvela_go.Library.{Library}
use solvela_go.Client.Construction.{NewClient, new_world, assemble, seeded, admitted, new_client}
use solvela_go.Client.Degraded.{IsClean}

-- A client that can be used: its gateway is secure, its cache holds no degraded response, no balance
-- is known, and nothing was done yet.
pub record IsReady (lib : Library) (n : NewClient) : Type 0 where
  pub url : Url
  pub parsed : lib.parse_url n.client.config.gateway_url ≡ address url
  pub secure : IsSecure url
  pub clean : IsClean n.world
  pub unknown : n.world.last_balance_set ≡ false
  pub untouched : n.world.history ≡ []

new_world-IsClean : (cfg : ClientConfig) → IsClean (new_world cfg)
unfolding new_world solvela_go.Cache.new_response_cache
    solvela_go.Cache.new_response_cache_with_config
new_world-IsClean cfg = elim (Bool-cases cfg.enable_cache) [
  | inl enabled ↦ rw enabled tt
  | inr disabled ↦ rw disabled tt
]

assemble-IsReady :
    (lib : Library) (cfg : ClientConfig) (has_signer : Bool) (salt : Bytes) (u : Url)
    → lib.parse_url cfg.gateway_url ≡ address u
    → IsSecure u
    → IsReady lib (assemble cfg has_signer salt)
unfolding assemble new_world
assemble-IsReady lib cfg has_signer salt u parsed secure = record {
  url = u;
  parsed = parsed;
  secure = secure;
  clean = new_world-IsClean cfg;
  unknown = refl;
  untouched = refl;
}

assembled-IsReady :
    (lib : Library) (cfg : ClientConfig) (has_signer : Bool) (salt : Bytes ⊎ Bytes) (check : Check)
    {n : NewClient}
    → check ≡ validate_gateway_url (lib.parse_url cfg.gateway_url)
    → admitted cfg has_signer salt check ≡ ok n
    → IsReady lib n
unfolding admitted seeded assemble
assembled-IsReady lib cfg has_signer salt (failed why) same h = cc
assembled-IsReady lib cfg has_signer (inr why) passed same h = cc
assembled-IsReady lib cfg has_signer (inl salt) passed {n} same h =
    let (u, parsed, secure) =
      (validate_gateway_url_iff (lib.parse_url cfg.gateway_url)).0 (sym same) in
    let made : assemble cfg has_signer salt ≡ n = cc h in
    subst (IsReady lib) made (assemble-IsReady lib cfg has_signer salt u parsed secure)

admitted-assemble :
    (cfg : ClientConfig) (has_signer : Bool) (salt : Bytes ⊎ Bytes) (check : Check) {n : NewClient}
    → admitted cfg has_signer salt check ≡ ok n
    → (bytes : Bytes) × (assemble cfg has_signer bytes ≡ n)
unfolding admitted seeded
admitted-assemble cfg has_signer salt (failed why) h = cc
admitted-assemble cfg has_signer (inr why) passed h = cc
admitted-assemble cfg has_signer (inl bytes) passed h = (bytes, cc h)

-- A client that is returned is one that was assembled.
pub new_client-assemble :
    (lib : Library) (has_signer : Bool) (salt : Bytes ⊎ Bytes) (settings : List Setting)
    {n : NewClient}
    → new_client lib has_signer salt settings ≡ ok n
    → (bytes : Bytes) × (assemble (apply_all settings default_config) has_signer bytes ≡ n)
unfolding new_client
new_client-assemble lib has_signer salt settings h = admitted-assemble _ has_signer salt _ h

pub has_signer-new_client :
    (lib : Library) (has_signer : Bool) (salt : Bytes ⊎ Bytes) (settings : List Setting)
    {n : NewClient}
    → new_client lib has_signer salt settings ≡ ok n
    → n.client.has_signer ≡ has_signer
unfolding assemble
has_signer-new_client lib has_signer salt settings h =
    let (bytes, made) = new_client-assemble lib has_signer salt settings h in
    ap (λ n. n.client.has_signer) (sym made)

pub config-new_client :
    (lib : Library) (has_signer : Bool) (salt : Bytes ⊎ Bytes) (settings : List Setting)
    {n : NewClient}
    → new_client lib has_signer salt settings ≡ ok n
    → n.client.config ≡ apply_all settings default_config
unfolding assemble
config-new_client lib has_signer salt settings h =
    let (bytes, made) = new_client-assemble lib has_signer salt settings h in
    ap (λ n. n.client.config) (sym made)

pub new_client-IsReady :
    (lib : Library) (has_signer : Bool) (salt : Bytes ⊎ Bytes) (settings : List Setting)
    {n : NewClient}
    → new_client lib has_signer salt settings ≡ ok n
    → IsReady lib n
unfolding new_client
new_client-IsReady lib has_signer salt settings h =
    assembled-IsReady lib (apply_all settings default_config) has_signer salt _ refl h
