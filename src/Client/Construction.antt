-- ===== src/Client/Construction.antt =====
-- client.go: `NewClient` and `Close`. What the system's randomness gave is a parameter: the salt or the
-- text of an error.
pub mod Ready
pub mod Settled
use solvela_go.Base.{
  Bytes, ℕ, zero, ℤ, pos, negsuc, Bool, true, false, ◌&&◌, Option, none, some, List, [], ◌∷◌, ◌⊎◌,
  inl, inr, ltb_ℤ, if◌then◌else◌,
}
use solvela_go.Errors.{Error, Result, ok, err, Message, client_error, lit, cause}
use solvela_go.Config.{ClientConfig, Setting, Fetcher, default_config, apply_all}
use solvela_go.Url.{UrlResult, Check, passed, failed, validate_gateway_url}
use solvela_go.Cache.{ResponseCache, new_response_cache}
use solvela_go.Sessions.{SessionStore, new_session_store}
use solvela_go.Transport.{new_transport}
use solvela_go.Balance.{BalanceMonitor, new_balance_monitor, set_on_poll, stop_monitor}
use solvela_go.Library.{Library}
use solvela_go.Client.{SolvelaClient}
use solvela_go.Exec.{World}

-- The new client's fields that change; nothing was done outside yet.
unfoldable pub new_world : ClientConfig → World
unfolding new_response_cache new_session_store
new_world cfg = record {
  cache = if cfg.enable_cache then some new_response_cache else none;
  session_store = if cfg.enable_sessions then some (new_session_store cfg.session_ttl) else none;
  last_balance = 0;
  last_balance_set = false;
  history = [];
}

abbrev is_given : Option Fetcher → Bool
is_given none = false
is_given (some fetcher) = true

-- The monitor that is started, if one was asked for.
unfoldable pub new_monitor : ClientConfig → Option BalanceMonitor
unfolding set_on_poll new_balance_monitor
new_monitor cfg =
    if ltb_ℤ (pos 0) cfg.balance_poll_interval && is_given cfg.balance_fetcher
    then some (set_on_poll (new_balance_monitor cfg.balance_poll_interval none false))
    else none

pub record NewClient : Type 0 where
  pub client : SolvelaClient
  pub world : World
  pub monitor : Option BalanceMonitor

unfoldable pub assemble : ClientConfig → Bool → Bytes → NewClient
unfolding new_world new_monitor
assemble cfg has_signer salt = record {
  client = record {
    config = cfg;
    has_signer = has_signer;
    transport = new_transport cfg.gateway_url cfg.timeout;
    session_salt = salt;
  };
  world = new_world cfg;
  monitor = new_monitor cfg;
}

unfoldable pub seeded : ClientConfig → Bool → Bytes ⊎ Bytes → Result NewClient
seeded cfg has_signer (inl salt) = ok (assemble cfg has_signer salt)
seeded cfg has_signer (inr why) =
    err (client_error (lit "failed to seed session salt: " ∷ cause why ∷ []))

unfoldable pub admitted : ClientConfig → Bool → Bytes ⊎ Bytes → Check → Result NewClient
unfolding seeded
admitted cfg has_signer salt passed = seeded cfg has_signer salt
admitted cfg has_signer salt (failed why) = err (client_error why)

-- `NewClient`; of the signer, whether one is given.
unfoldable pub new_client : Library → Bool → Bytes ⊎ Bytes → List Setting → Result NewClient
unfolding admitted apply_all default_config validate_gateway_url
new_client lib has_signer salt settings =
    let cfg = apply_all settings default_config in
    admitted cfg has_signer salt (validate_gateway_url (lib.parse_url cfg.gateway_url))

abbrev stopped_of : Option BalanceMonitor → Option BalanceMonitor
stopped_of none = none
stopped_of (some m) = some (stop_monitor m)

-- `Close`
unfoldable pub close : NewClient → NewClient
close c = record c { monitor = stopped_of c.monitor }
