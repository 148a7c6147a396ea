-- ===== src/Tests/Smokes.antt =====
-- Runs of the smoke test, and of clients without a signer.
use solvela_go.Base.{
  Bytes, ℕ, ◌+◌, ◌≤◌, ◌≡◌, ◌↔◌, refl, pos, true, false, none, some, [], ◌∷◌, inl, codes,
}
use solvela_go.Errors.{ok}
use solvela_go.Config.{with_gateway_url, usdc_mint}
use solvela_go.Wire.{ModelInfo, model_info_wire}
use solvela_go.Http.{HttpOutcome, answered}
use solvela_go.Library.{Library}
use solvela_go.Client.{SolvelaClient}
use solvela_go.Client.Chat.{chat}
use solvela_go.Client.Construction.{NewClient, new_client}
use solvela_go.Client.Effort.Unsigned.{chat_unsigned_effort}
use solvela_go.Exec.{Environment, History}
use solvela_go.Exec.Effort.{exchanges, signings}
use solvela_go.Smoke.{exit_code, gateway_of, smoke}
use solvela_go.Smoke.Passing.{Passes, smoke_iff}
use solvela_go.Smoke.Effort.{smoke_effort}
use solvela_go.Tests.Fixtures.{lib, env, client, request, world, accept, demand}

abbrev sample : ModelInfo
sample = record {
  id = codes "m";
  provider = codes "p";
  display_name = codes "M";
  context_window = pos 8;
  supports_streaming = true;
  supports_tools = false;
  supports_vision = false;
  reasoning = false;
  input_usdc_per_million = 4_607_182_418_800_017_408;
  output_usdc_per_million = 0;
  currency = codes "USDC";
  fee_percent = pos 5;
}

-- The registry has one model, and the demand pays to a real address.
abbrev live_lib : Library
live_lib = record lib {
  decode_models = λ b. ok (model_info_wire sample ∷ []);
  decode_required = λ s. ok (record {
    x402_version = pos 2;
    resource = demand.resource;
    accepts = record accept { pay_to = usdc_mint } ∷ [];
    cost_breakdown = record demand.cost_breakdown { currency = codes "USDC" };
    error = [];
  });
}

abbrev live_gateway : History → HttpOutcome
live_gateway [] = answered (record { status = 200; body = record { content = []; fault = none } })
live_gateway (e ∷ h) =
    answered (record { status = 402; body = record { content = []; fault = none } })

abbrev live_env : Environment
live_env = record (env []) { gateway = λ h req. live_gateway h }

abbrev salt : Bytes
salt = 1 ∷ 2 ∷ []

smoke_iff_example : (exit_code (smoke live_lib live_env (inl salt) []).0 ≡ 0) ↔ (
    (n : NewClient) × (new_client live_lib false (inl salt) (with_gateway_url (gateway_of []) ∷ [])
      ≡ ok n)
    × Passes live_lib live_env n)
smoke_iff_example = smoke_iff live_lib live_env (inl salt) []

smoke_effort_example :
    (exchanges (smoke live_lib live_env (inl salt) []).1 ≤ 2)
    × (signings (smoke live_lib live_env (inl salt) []).1 ≡ 0)
smoke_effort_example = smoke_effort live_lib live_env (inl salt) []

abbrev unsigned : SolvelaClient
unsigned = record client { has_signer = false }

chat_unsigned_effort_example :
    (exchanges (chat lib (env []) unsigned request world).1.history ≤ 0 + (1 + 1))
    × (signings (chat lib (env []) unsigned request world).1.history ≤ 0)
chat_unsigned_effort_example = chat_unsigned_effort lib (env []) unsigned refl request world

program : Unit {0}
unfolding solvela_go.Strings.trim_space solvela_go.Strings.contains_text solvela_go.Strings.to_lower
    solvela_go.Quality.is_repetitive solvela_go.Strings.fields solvela_go.Quality.is_truncated
    solvela_go.Strings.trim_right solvela_go.Client.Chat.chat solvela_go.Client.Chat.guarded_model
    solvela_go.Client.Chat.get_last_balance solvela_go.Client.Chat.look_up_session
    solvela_go.Client.Chat.with_session solvela_go.Client.Chat.check_cache
    solvela_go.Client.Chat.with_cache solvela_go.Client.Chat.answer
    solvela_go.Client.Chat.fetch_response solvela_go.Client.Chat.check_quality
    solvela_go.Client.Chat.with_retries solvela_go.Client.Chat.quality_loop
    solvela_go.Client.Chat.reason_of solvela_go.Client.Chat.reason_of_choices
    solvela_go.Client.Chat.store_response solvela_go.Client.Chat.into_cache
    solvela_go.Client.Chat.record_session solvela_go.Client.Chat.into_session
    solvela_go.Client.send_with_payment solvela_go.Client.pay_and_resend
    solvela_go.Client.sign_payment_required solvela_go.Client.settled
    solvela_go.Client.prepare_payment solvela_go.Client.offered solvela_go.Client.check_offer
    solvela_go.Client.encode_signature solvela_go.Exec.◌>>=◌ solvela_go.Exec.pure
    solvela_go.Exec.raise solvela_go.Exec.lift solvela_go.Exec.note solvela_go.Exec.read_clock
    solvela_go.Exec.exchange solvela_go.Exec.check_context solvela_go.Exec.sign
    solvela_go.Transport.send_chat solvela_go.Transport.wrap solvela_go.Transport.check_url
    solvela_go.Transport.chat_headers solvela_go.Transport.post solvela_go.Transport.settle
    solvela_go.Transport.classify solvela_go.Payment.find_compatible_scheme
    solvela_go.Payment.validate_payment solvela_go.Payment.validate_resource_origin
    solvela_go.Amount.parse_amount solvela_go.Quality.check_degraded solvela_go.Keys.cache_key
    solvela_go.Keys.derive_session_id_with_salt solvela_go.Floats.is_zero
    solvela_go.Base64.encode_base64 solvela_go.Wire.unmarshal_payment_required
    solvela_go.Wire.unmarshal_accepts solvela_go.Wire.unmarshal_payment_accept
    solvela_go.Wire.parse_scheme solvela_go.Http.limited solvela_go.Http.read_all
    solvela_go.Http.set_headers solvela_go.Maps.lookup solvela_go.Base.codes
    solvela_go.Base.bytes_eq solvela_go.Cache.get solvela_go.Cache.put
    solvela_go.Sessions.get_or_create solvela_go.Sessions.record_request solvela_go.Smoke.smoke
    solvela_go.Smoke.exit_code solvela_go.Smoke.examine solvela_go.Smoke.judge_models
    solvela_go.Smoke.ask solvela_go.Smoke.ping solvela_go.Smoke.judge_answer
    solvela_go.Smoke.check_registry solvela_go.Transport.fetch_models solvela_go.Transport.fetched
    solvela_go.Client.Construction.new_client solvela_go.Client.Construction.assemble
    solvela_go.Url.validate_gateway_url solvela_go.Config.apply_all solvela_go.Wire.model_info_wire
    solvela_go.Wire.unmarshal_model_info solvela_go.Floats.less
program = tt

-- The whole run: one request for the registry, and one that is refused.
passes :
    (exit_code (smoke live_lib live_env (inl salt) []).0 ≡ 0)
    × (exchanges (smoke live_lib live_env (inl salt) []).1 ≡ 2)
unfolding program
passes = (refl, refl)
