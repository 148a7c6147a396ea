-- ===== src/Client/Construction/Settled.antt =====
-- The configuration of a new client, by the options that the package exports.
use solvela_go.Base.{Bytes, ℕ, ℤ, ◌≡◌, Bool, Option, none, some, List, [], ◌∷◌}
use solvela_go.Config.{
  ClientConfig, Fetcher, Setting, with_gateway_url, with_rpc_url, with_timeout,
  with_expected_recipient, with_max_payment_amount, with_cache, with_sessions, with_session_ttl,
  with_quality_check, with_max_quality_retries, with_free_fallback_model, with_balance_monitor,
  custom,
}
use solvela_go.Library.{Library}

-- The option is one of the package's.
abbrev pub IsExported : Setting → Type 0
IsExported (custom option) = ⊥
IsExported s = Unit

abbrev pub AllExported : List Setting → Type 0
AllExported [] = Unit
AllExported (s ∷ settings) = IsExported s × AllExported settings

-- What an option asks of each field, if anything.
abbrev gateway_url_of : Setting → Option Bytes
gateway_url_of (with_gateway_url x) = some x
gateway_url_of s = none

abbrev rpc_url_of : Setting → Option Bytes
rpc_url_of (with_rpc_url x) = some x
rpc_url_of s = none

abbrev timeout_of : Setting → Option ℤ
timeout_of (with_timeout x) = some x
timeout_of s = none

abbrev expected_recipient_of : Setting → Option Bytes
expected_recipient_of (with_expected_recipient x) = some x
expected_recipient_of s = none

abbrev max_payment_amount_of : Setting → Option (Option ℕ)
max_payment_amount_of (with_max_payment_amount x) = some (some x)
max_payment_amount_of s = none

abbrev enable_cache_of : Setting → Option Bool
enable_cache_of (with_cache x) = some x
enable_cache_of s = none

abbrev enable_sessions_of : Setting → Option Bool
enable_sessions_of (with_sessions x) = some x
enable_sessions_of s = none

abbrev session_ttl_of : Setting → Option ℤ
session_ttl_of (with_session_ttl x) = some x
session_ttl_of s = none

abbrev enable_quality_check_of : Setting → Option Bool
enable_quality_check_of (with_quality_check x) = some x
enable_quality_check_of s = none

abbrev max_quality_retries_of : Setting → Option ℤ
max_quality_retries_of (with_max_quality_retries x) = some x
max_quality_retries_of s = none

abbrev free_fallback_model_of : Setting → Option Bytes
free_fallback_model_of (with_free_fallback_model x) = some x
free_fallback_model_of s = none

abbrev balance_poll_interval_of : Setting → Option ℤ
balance_poll_interval_of (with_balance_monitor x fetcher) = some x
balance_poll_interval_of s = none

abbrev balance_fetcher_of : Setting → Option (Option Fetcher)
balance_fetcher_of (with_balance_monitor interval x) = some x
balance_fetcher_of s = none

abbrev or_else {ℓ} : {A : Type ℓ} → Option A → A → A
or_else none a = a
or_else (some x) a = x

-- The last value asked for, or the one that was there
abbrev pub last_of {ℓ} : {A : Type ℓ} → (Setting → Option A) → List Setting → A → A
last_of f [] a = a
last_of f (s ∷ settings) a = last_of f settings (or_else (f s) a)

-- The configuration in which each field has the last value that an option asks for it.
abbrev pub settled : List Setting → ClientConfig → ClientConfig
settled settings c = record {
  gateway_url = last_of gateway_url_of settings c.gateway_url;
  rpc_url = last_of rpc_url_of settings c.rpc_url;
  prefer_escrow = c.prefer_escrow;
  timeout = last_of timeout_of settings c.timeout;
  expected_recipient = last_of expected_recipient_of settings c.expected_recipient;
  max_payment_amount = last_of max_payment_amount_of settings c.max_payment_amount;
  enable_cache = last_of enable_cache_of settings c.enable_cache;
  enable_sessions = last_of enable_sessions_of settings c.enable_sessions;
  session_ttl = last_of session_ttl_of settings c.session_ttl;
  enable_quality_check = last_of enable_quality_check_of settings c.enable_quality_check;
  max_quality_retries = last_of max_quality_retries_of settings c.max_quality_retries;
  free_fallback_model = last_of free_fallback_model_of settings c.free_fallback_model;
  balance_poll_interval = last_of balance_poll_interval_of settings c.balance_poll_interval;
  balance_fetcher = last_of balance_fetcher_of settings c.balance_fetcher;
}

abbrev pub HasCap : ClientConfig → Type 0
HasCap cfg = (max : ℕ) × (cfg.max_payment_amount ≡ some max)
