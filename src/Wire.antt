-- ===== src/Wire.antt =====
-- types.go, the decoding that the program does itself: `parseScheme`, the `UnmarshalJSON` and
-- `MarshalJSON` methods. `encoding/json` reads the text into the wire records below.
pub mod Laws
use solvela_go.Base.{Bytes, ℤ, pos, Bool, Option, none, some, List, [], ◌∷◌, ◌==◌, bytes_eq, codes}
use solvela_go.Base.{if◌then◌else◌}
use solvela_go.Errors.{Result, ok, err, ◌>>=◌, Error, client_error, lit, quoted}
use solvela_go.Types.Chat.{Float64}
use solvela_go.Types.Payment.{Scheme, scheme_exact, scheme_escrow, PaymentAccept, PaymentRequired}
use solvela_go.Types.Payment.{Resource, CostBreakdown}

unfoldable pub parse_scheme : Bytes → Result Scheme
parse_scheme raw =
    if raw == scheme_exact
    then ok raw
    else if raw == scheme_escrow
    then ok raw
    else err (client_error (lit "unknown payment scheme: " ∷ quoted raw ∷ []))

-- What `PaymentAccept.UnmarshalJSON` has decoded: the scheme as plain text, outside the other fields.
-- An absent field is the empty text.
pub record PaymentAcceptWire : Type 0 where
  pub scheme : Bytes
  pub network : Bytes
  pub amount : Bytes
  pub asset : Bytes
  pub pay_to : Bytes
  pub max_timeout_seconds : ℤ
  pub escrow_program_id : Option Bytes

-- `PaymentAccept.UnmarshalJSON` once the JSON text has been read.
unfoldable pub unmarshal_payment_accept : PaymentAcceptWire → Result PaymentAccept
unmarshal_payment_accept w = do
  s ← parse_scheme w.scheme
  ok (record {
    scheme = s;
    network = w.network;
    amount = w.amount;
    asset = w.asset;
    pay_to = w.pay_to;
    max_timeout_seconds = w.max_timeout_seconds;
    escrow_program_id = w.escrow_program_id;
  })

-- `PaymentRequired` as `encoding/json` decodes it, before it calls `UnmarshalJSON` of each accept.
pub record PaymentRequiredWire : Type 0 where
  pub x402_version : ℤ
  pub resource : Resource
  pub accepts : List PaymentAcceptWire
  pub cost_breakdown : CostBreakdown
  pub error : Bytes

unfoldable pub unmarshal_accepts : List PaymentAcceptWire → Result (List PaymentAccept)
unmarshal_accepts [] = ok []
unmarshal_accepts (w ∷ ws) = do
  a ← unmarshal_payment_accept w
  as' ← unmarshal_accepts ws
  ok (a ∷ as')

unfoldable pub unmarshal_payment_required : PaymentRequiredWire → Result PaymentRequired
unmarshal_payment_required w = do
  accepts ← unmarshal_accepts w.accepts
  ok (record {
    x402_version = w.x402_version;
    resource = w.resource;
    accepts = accepts;
    cost_breakdown = w.cost_breakdown;
    error = w.error;
  })

pub record ModelInfo : Type 0 where
  pub id : Bytes
  pub provider : Bytes
  pub display_name : Bytes
  pub context_window : ℤ
  pub supports_streaming : Bool
  pub supports_tools : Bool
  pub supports_vision : Bool
  pub reasoning : Bool
  pub input_usdc_per_million : Float64
  pub output_usdc_per_million : Float64
  pub currency : Bytes
  pub fee_percent : ℤ

pub record Capabilities : Type 0 where
  pub streaming : Bool
  pub tools : Bool
  pub vision : Bool
  pub reasoning : Bool

pub record Pricing : Type 0 where
  pub input_per_million : Float64
  pub output_per_million : Float64
  pub currency : Option Bytes
  pub fee_percent : Option ℤ

pub record ModelInfoWire : Type 0 where
  pub id : Bytes
  pub object : Bytes
  pub provider : Bytes
  pub display_name : Bytes
  pub context_window : ℤ
  pub capabilities : Capabilities
  pub pricing : Pricing

-- The value that `ModelInfo.MarshalJSON` encodes
unfoldable pub model_info_wire : ModelInfo → ModelInfoWire
model_info_wire m = record {
  id = m.id;
  object = codes "model";
  provider = m.provider;
  display_name = m.display_name;
  context_window = m.context_window;
  capabilities = record {
    streaming = m.supports_streaming;
    tools = m.supports_tools;
    vision = m.supports_vision;
    reasoning = m.reasoning;
  };
  pricing = record {
    input_per_million = m.input_usdc_per_million;
    output_per_million = m.output_usdc_per_million;
    currency = some (if m.currency == [] then codes "USDC" else m.currency);
    fee_percent = some m.fee_percent;
  };
}

-- `ModelInfo.MarshalJSON`; `encode` is `json.Marshal`, which fails on a price that is no number.
unfoldable pub marshal_model_info : (ModelInfoWire → Result Bytes) → ModelInfo → Result Bytes
unfolding model_info_wire
marshal_model_info encode m = encode (model_info_wire m)

abbrev default_to {ℓ} : {A : Type ℓ} → A → Option A → A
default_to d none = d
default_to d (some a) = a

-- `ModelInfo.UnmarshalJSON`, from the wire record on. Every field of the receiver is written.
unfoldable pub unmarshal_model_info : ModelInfoWire → ModelInfo
unmarshal_model_info w = record {
  id = w.id;
  provider = w.provider;
  display_name = w.display_name;
  context_window = w.context_window;
  supports_streaming = w.capabilities.streaming;
  supports_tools = w.capabilities.tools;
  supports_vision = w.capabilities.vision;
  reasoning = w.capabilities.reasoning;
  input_usdc_per_million = w.pricing.input_per_million;
  output_usdc_per_million = w.pricing.output_per_million;
  currency = default_to (codes "USDC") w.pricing.currency;
  fee_percent = default_to (pos 5) w.pricing.fee_percent;
}
