-- ===== src/Config.antt =====
-- config.go and constants.go: the configuration, its defaults and its functional options.
-- A duration is in nanoseconds.
use solvela_go.Base.{
  Bytes, ℕ, ℤ, pos, Bool, false, Option, none, some, List, [], ◌∷◌, ◌*◌, ◌^◌, codes,
}
use solvela_go.Errors.{Result}
use solvela_go.Types.Chat.{Float64}

abbrev pub x402_version : ℤ
x402_version = pos 2

abbrev pub usdc_mint : Bytes
usdc_mint = codes "EPjFWdd5AufqSSqeM2qN1xzybapC8G4wEGGkZwyTDt1v"

abbrev pub solana_network : Bytes
solana_network = codes "solana:5eykt4UsFv8P8NJdTREpY1vzqKqZKvdp"

abbrev pub platform_fee_percent : ℤ
platform_fee_percent = pos 5

-- No code of the repository reads this bound.
abbrev pub max_timeout_seconds : ℤ
max_timeout_seconds = pos 300

abbrev pub default_max_payment_amount : ℕ
default_max_payment_amount = 10_000_000

abbrev pub seconds : ℕ → ℤ
seconds n = pos (n * 10 ^ 9)

-- The caller's balance function, by what its n-th call returns.
abbrev pub Fetcher : Type 0
Fetcher = ℕ → Result Float64

pub record ClientConfig : Type 0 where
  pub gateway_url : Bytes
  pub rpc_url : Bytes
  pub prefer_escrow : Bool
  pub timeout : ℤ
  pub expected_recipient : Bytes
  pub max_payment_amount : Option ℕ
  pub enable_cache : Bool
  pub enable_sessions : Bool
  pub session_ttl : ℤ
  pub enable_quality_check : Bool
  pub max_quality_retries : ℤ
  pub free_fallback_model : Bytes
  pub balance_poll_interval : ℤ
  pub balance_fetcher : Option Fetcher

unfoldable pub default_config : ClientConfig
default_config = record {
  gateway_url = codes "https://api.solvela.ai";
  rpc_url = codes "https://api.mainnet-beta.solana.com";
  prefer_escrow = false;
  timeout = seconds 180;
  expected_recipient = [];
  max_payment_amount = some default_max_payment_amount;
  enable_cache = false;
  enable_sessions = false;
  session_ttl = seconds 1800;
  enable_quality_check = false;
  max_quality_retries = pos 1;
  free_fallback_model = [];
  balance_poll_interval = pos 0;
  balance_fetcher = none;
}

-- An `Option`: one for each `With…` function of the package, and a function of the caller's own.
pub data Setting : Type 0 where
  with_gateway_url : Bytes → Setting
  with_rpc_url : Bytes → Setting
  with_timeout : ℤ → Setting
  with_expected_recipient : Bytes → Setting
  with_max_payment_amount : ℕ → Setting
  with_cache : Bool → Setting
  with_sessions : Bool → Setting
  with_session_ttl : ℤ → Setting
  with_quality_check : Bool → Setting
  with_max_quality_retries : ℤ → Setting
  with_free_fallback_model : Bytes → Setting
  with_balance_monitor : ℤ → Option Fetcher → Setting
  custom : (ClientConfig → ClientConfig) → Setting

-- What the option does to the configuration.
unfoldable pub apply : Setting → ClientConfig → ClientConfig
apply (with_gateway_url url) c = record c { gateway_url = url }
apply (with_rpc_url url) c = record c { rpc_url = url }
apply (with_timeout d) c = record c { timeout = d }
apply (with_expected_recipient r) c = record c { expected_recipient = r }
apply (with_max_payment_amount max) c = record c { max_payment_amount = some max }
apply (with_cache enable) c = record c { enable_cache = enable }
apply (with_sessions enable) c = record c { enable_sessions = enable }
apply (with_session_ttl d) c = record c { session_ttl = d }
apply (with_quality_check enable) c = record c { enable_quality_check = enable }
apply (with_max_quality_retries n) c = record c { max_quality_retries = n }
apply (with_free_fallback_model model) c = record c { free_fallback_model = model }
apply (with_balance_monitor interval fetcher) c = record c {
  balance_poll_interval = interval;
  balance_fetcher = fetcher;
}
apply (custom option) c = option c

-- The loop of `NewClient` over its options.
unfoldable pub apply_all : List Setting → ClientConfig → ClientConfig
unfolding apply
apply_all [] c = c
apply_all (s ∷ settings) c = apply_all settings (apply s c)
