-- ===== src/Types/Payment.antt =====
-- types.go, the payment types.
use solvela_go.Base.{Bytes, ℤ, Option, List, codes}
use solvela_go.Types.Chat.{Value}

-- `Scheme` is a string type: a decoded accept holds one of the two constants, a literal any text.
abbrev pub Scheme : Type 0
Scheme = Bytes

abbrev pub scheme_exact : Scheme
scheme_exact = codes "exact"

abbrev pub scheme_escrow : Scheme
scheme_escrow = codes "escrow"

pub record Resource : Type 0 where
  pub url : Bytes
  pub method : Bytes

pub record PaymentAccept : Type 0 where
  pub scheme : Scheme
  pub network : Bytes
  pub amount : Bytes
  pub asset : Bytes
  pub pay_to : Bytes
  pub max_timeout_seconds : ℤ
  pub escrow_program_id : Option Bytes

pub record CostBreakdown : Type 0 where
  pub provider_cost : Bytes
  pub platform_fee : Bytes
  pub total : Bytes
  pub currency : Bytes
  pub fee_percent : ℤ

pub record PaymentRequired : Type 0 where
  pub x402_version : ℤ
  pub resource : Resource
  pub accepts : List PaymentAccept
  pub cost_breakdown : CostBreakdown
  pub error : Bytes

pub record SolanaPayload : Type 0 where
  pub transaction : Bytes

pub record EscrowPayload : Type 0 where
  pub deposit_tx : Bytes
  pub service_id : Bytes
  pub agent_pubkey : Bytes

pub record PaymentPayload : Type 0 where
  pub x402_version : ℤ
  pub resource : Resource
  pub accepted : PaymentAccept
  pub payload : Value
