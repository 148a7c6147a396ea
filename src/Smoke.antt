-- ===== src/Smoke.antt =====
-- scripts/smoke/main.go: the smoke test of a live gateway, from the variable of the environment to the
-- exit code. What it prints is left out, but for the reason of a failure.
pub mod Checks
pub mod Passing
pub mod Effort
use solvela_go.Base.{
  Bytes, ℕ, ℤ, pos, negsuc, Bool, true, false, not, ◌&&◌, ◌||◌, Option, none, some, List, [], ◌∷◌,
  ◌⊎◌, any, leb, length, contains, ◌==◌, nat_eq, bytes_eq, if◌then◌else◌, codes, take,
}
use solvela_go.Errors.{Error, Result, ok, err, payment_required_error, wrapped}
use solvela_go.Types.Chat.{Float64, ChatMessage, ChatRequest, ChatResponse, role_user}
use solvela_go.Types.Payment.{PaymentAccept, PaymentRequired}
use solvela_go.Wire.{ModelInfo}
use solvela_go.Floats.{less}
use solvela_go.Amount.{Parsed, parsed, refused, parse_uint}
use solvela_go.Config
use solvela_go.Config.{with_gateway_url, usdc_mint, solana_network}
use solvela_go.Library.{Library}
use solvela_go.Client.Queries.{models}
use solvela_go.Client.{SolvelaClient}
use solvela_go.Client.Chat.{chat}
use solvela_go.Client.Construction.{NewClient, new_client}
use solvela_go.Exec.{World, M, ◌>>=◌, pure, Environment, History}

-- One constructor for each line that starts with FAIL.
pub data Failure : Type 0 where
  url_rejected models_failed no_models no_streaming no_pricing sample_incomplete : Failure
  answered other_error no_accepts bad_recipient bad_amount bad_number bad_network bad_asset
        bad_currency bad_version :
      Failure

pub data Verdict : Type 0 where
  passed : Verdict
  fail : Failure → Verdict

unfoldable pub exit_code : Verdict → ℕ
exit_code passed = 0
exit_code (fail why) = 1

-- `solanaPubkeyRE`: 32 to 44 bytes, each of them a letter or digit but 0, O, I and l.
unfoldable pub is_base58_byte : ℕ → Bool
is_base58_byte c =
    (leb b'1' c && leb c b'9')
    || (leb b'A' c && leb c b'H')
    || (leb b'J' c && leb c b'N')
    || (leb b'P' c && leb c b'Z')
    || (leb b'a' c && leb c b'k')
    || (leb b'm' c && leb c b'z')

unfoldable pub all_bytes : (ℕ → Bool) → Bytes → Bool
all_bytes test [] = true
all_bytes test (c ∷ s) = test c && all_bytes test s

unfoldable pub matches_pubkey : Bytes → Bool
unfolding is_base58_byte all_bytes
matches_pubkey s = leb 32 (length s) && leb (length s) 44 && all_bytes is_base58_byte s

-- `amountRE`: digits, at least one.
unfoldable pub is_digit : ℕ → Bool
is_digit c = leb b'0' c && leb c b'9'

unfoldable pub matches_amount : Bytes → Bool
unfolding is_digit all_bytes
matches_amount s = not (s == []) && all_bytes is_digit s

abbrev streams : ModelInfo → Bool
streams m = m.supports_streaming

abbrev is_priced : ModelInfo → Bool
is_priced m = less 0 m.input_usdc_per_million

-- The checks of the registry; `sample` is its first model.
unfoldable pub check_registry : ModelInfo → List ModelInfo → Option Failure
check_registry sample models =
    if not (any streams models)
    then some no_streaming
    else if not (any is_priced models)
    then some no_pricing
    else if sample.display_name == [] || sample.provider == []
    then some sample_incomplete
    else none

-- `err != nil || amt == 0`
unfoldable pub is_positive : Parsed → Bool
is_positive (parsed n) = not (n == 0)
is_positive (refused why) = false

-- `pr.X402Version == X402Version`
unfoldable pub is_spoken : ℤ → Bool
is_spoken (pos n) = n == 2
is_spoken (negsuc n) = false

-- The checks of the first accept and of the rest of the body.
unfoldable pub check_drift : PaymentRequired → PaymentAccept → Option Failure
unfolding matches_pubkey matches_amount is_positive is_spoken
check_drift pr accept =
    if accept.pay_to == [] || not (matches_pubkey accept.pay_to)
    then some bad_recipient
    else if not (matches_amount accept.amount)
    then some bad_amount
    else if not (is_positive (parse_uint accept.amount))
    then some bad_number
    else if not (accept.network == solana_network)
    then some bad_network
    else if not (accept.asset == usdc_mint)
    then some bad_asset
    else if not (pr.cost_breakdown.currency == codes "USDC")
    then some bad_currency
    else if not (is_spoken pr.x402_version)
    then some bad_version
    else none

unfoldable pub check_demand : PaymentRequired → List PaymentAccept → Option Failure
unfolding check_drift
check_demand pr [] = some no_accepts
check_demand pr (accept ∷ accepts) = check_drift pr accept

-- `errors.As` with a target of type `*PaymentRequiredError`
unfoldable pub as_payment_required : Error → Option PaymentRequired
as_payment_required (payment_required_error pr) = some pr
as_payment_required (wrapped prefix e) = as_payment_required e
as_payment_required e = none

abbrev pub verdict_of : Option Failure → Verdict
verdict_of none = passed
verdict_of (some why) = fail why

unfoldable pub judge_error : Option PaymentRequired → Verdict
unfolding check_demand
judge_error none = fail other_error
judge_error (some pr) = verdict_of (check_demand pr pr.accepts)

-- What is made of what `Chat` gave.
unfoldable pub judge_answer : Result ChatResponse → Verdict
unfolding judge_error as_payment_required
judge_answer (ok r) = fail answered
judge_answer (err e) = judge_error (as_payment_required e)

unfoldable pub ping : Bytes → ChatRequest
ping model = record {
  model = model;
  messages =
      record {
        role = role_user;
        content = codes "ping";
        name = none;
        tool_calls = [];
        tool_call_id = none;
      }
      ∷ [];
  max_tokens = none;
  temperature = none;
  top_p = none;
  stream = false;
  tools = [];
  tool_choice = none;
}

module _ (lib : Library) (env : Environment) (c : SolvelaClient) where
  -- The second part: a request without a signer.
  unfoldable pub ask : ModelInfo → Option Failure → World → Verdict × World
  ask sample (some why) w = (fail why, w)
  ask sample none w =
      let (answer, w') = chat lib env c (ping sample.id) w in (judge_answer answer, w')

  unfoldable pub judge_models : Result (List ModelInfo) → World → Verdict × World
  judge_models (err e) w = (fail models_failed, w)
  judge_models (ok []) w = (fail no_models, w)
  judge_models (ok (sample ∷ others)) w = ask sample (check_registry sample (sample ∷ others)) w

  -- `run`, once the client is there
  unfoldable pub examine : World → Verdict × World
  examine w = let (answer, w') = models lib env c w in judge_models answer w'

unfoldable pub gateway_of : Bytes → Bytes
gateway_of url = if url == [] then codes "http://localhost:8402" else url

unfoldable pub started : Library → Environment → Result NewClient → Verdict × History
started lib env (err e) = (fail url_rejected, [])
started lib env (ok n) = let (verdict, w) = examine lib env n.client n.world in (verdict, w.history)

-- `run`, by the value of SOLVELA_GATEWAY_URL, with what was done outside.
unfoldable pub smoke : Library → Environment → Bytes ⊎ Bytes → Bytes → Verdict × History
unfolding started gateway_of
smoke lib env salt url =
    started lib env (new_client lib false salt (with_gateway_url (gateway_of url) ∷ []))
