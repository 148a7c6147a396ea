-- ===== src/Client.antt =====
-- client.go: the client and its payments. `SolvelaClient` holds the fields that never change; those
-- that change are the fields of the world, with the cache and the sessions there only if they
-- are enabled. The mutexes make each operation on a store one step.
pub mod Chat
pub mod Offers
pub mod Signatures
pub mod Steps
pub mod Safety
pub mod Effects
pub mod Degraded
pub mod Effort
pub mod Streams
pub mod Construction
pub mod Monitor
pub mod Queries
pub mod Calls
pub mod WellFormed
pub mod Life
pub mod Fallback
pub mod Failed
pub mod Repeated
use solvela_go.Base.{
  Bytes, ℕ, zero, suc, ℤ, pos, negsuc, ◌%◌, ◌^◌, ◌+◌, ◌*◌, ◌/◌, Bool, true, false, ◌&&◌, not,
  Option, none, some, List, [], ◌∷◌, ◌++◌, ◌==◌, nat_eq, bytes_eq, if◌then◌else◌, codes, length,
  take, ltb,
}
use solvela_go.Errors
use solvela_go.Errors.{
  Error, Result, ok, err, client_error, payment_required_error, payment_rejected, quality_degraded,
  wrapped, DegradedReason, empty_content,
}
use solvela_go.Types.Chat.{Float64, ChatMessage, ChatRequest, ChatResponse, ChatChoice}
use solvela_go.Types.Payment.{PaymentAccept, PaymentRequired, PaymentPayload}
use solvela_go.Config.{ClientConfig}
use solvela_go.Clock.{Time}
use solvela_go.Payment.{find_compatible_scheme, validate_payment, validate_resource_origin}
use solvela_go.Amount.{parse_amount}
use solvela_go.Base64.{encode_base64}
use solvela_go.Quality.{check_degraded}
use solvela_go.Cache
use solvela_go.Cache.{ResponseCache}
use solvela_go.Sessions
use solvela_go.Sessions.{SessionStore, SessionInfo}
use solvela_go.Http.{Headers}
use solvela_go.Library.{Library}
use solvela_go.Transport.{Transport, SendChatResult, response, payment_required, send_chat, wrap}
use solvela_go.Exec.{
  World, M, ◌>>=◌, ◌>>◌, pure, raise, lift, Environment, SignRequest, read_clock, sign,
}

pub record SolvelaClient : Type 0 where
  pub config : ClientConfig
  -- whether a signer was given; what it answers is the environment's
  pub has_signer : Bool
  pub transport : Transport
  pub session_salt : Bytes

abbrev checked_amount : Result ℕ → PaymentRequired → PaymentAccept → Result SignRequest
checked_amount r pr accepted = Errors.◌>>=◌ r (λ amount. ok (record {
  amount_atomic = amount;
  recipient = accepted.pay_to;
  resource = pr.resource;
  accepted = accepted;
}))

-- What `resolvePaymentSignature` returns: a signature, or the response that the probe already got.
abbrev pub Resolved : Type 0
Resolved = Bytes × Option ChatResponse

module _ (lib : Library) (c : SolvelaClient) where
  -- The checks of `signPaymentRequired` once a scheme was found.
  unfoldable pub check_offer : PaymentRequired → PaymentAccept → Result SignRequest
  check_offer pr accepted = Errors.◌>>◌ (validate_payment c.config accepted) (
      Errors.◌>>◌ (validate_resource_origin lib.parse_url c.config pr.resource.url)
        (checked_amount (parse_amount accepted.amount) pr accepted))

  unfoldable pub offered : PaymentRequired → Option PaymentAccept → Result SignRequest
  unfolding check_offer
  offered pr none = err (payment_required_error pr)
  offered pr (some accepted) = check_offer pr accepted

  -- `signPaymentRequired` up to the call of the signer: what it would be asked to sign.
  unfoldable pub prepare_payment : PaymentRequired → Result SignRequest
  prepare_payment pr =
      if c.has_signer
      then offered pr (find_compatible_scheme pr)
      else err (payment_required_error pr)

-- The value of the Payment-Signature header.
unfoldable pub encode_signature : Library → PaymentPayload → Result Bytes
unfolding wrap
encode_signature lib payload =
    Errors.◌>>=◌ (wrap (codes "encode payment payload") (lib.encode_payload payload))
      (λ text. ok (encode_base64 text))

abbrev probe : ChatRequest → ChatRequest
probe request = record request { stream = false }

-- The answer to a request that carried a signature.
unfoldable pub settled : SendChatResult → M ChatResponse
settled (response r) = pure r
settled (payment_required pr) = raise (payment_rejected (codes "payment rejected after signing"))

module _ (lib : Library) (env : Environment) (c : SolvelaClient) where
  -- `signPaymentRequired`
  unfoldable pub sign_payment_required : PaymentRequired → M Bytes
  sign_payment_required pr = do
    req ← lift (prepare_payment lib c pr)
    payload ← sign env req
    lift (encode_signature lib payload)

  -- The answer to a request that carried none: pay and send it again if the gateway asks for it.
  unfoldable pub pay_and_resend : ChatRequest → Headers → SendChatResult → M ChatResponse
  pay_and_resend request extra (response r) = pure r
  pay_and_resend request extra (payment_required pr) = do
    signature ← sign_payment_required pr
    result ← send_chat lib env c.transport (probe request) signature extra
    settled result

  -- `sendWithPayment`
  unfoldable pub send_with_payment : ChatRequest → Headers → M ChatResponse
  send_with_payment request extra = do
    result ← send_chat lib env c.transport (probe request) [] extra
    pay_and_resend request extra result

  unfoldable pub resolved : SendChatResult → M Resolved
  resolved (response r) = pure ([], some r)
  resolved (payment_required pr) = do signature ← sign_payment_required pr; pure (signature, none)

  -- `resolvePaymentSignature`
  unfoldable pub resolve_payment_signature : ChatRequest → M Resolved
  resolve_payment_signature request = do
    result ← send_chat lib env c.transport (probe request) [] []
    resolved result
