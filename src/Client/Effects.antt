-- ===== src/Client/Effects.antt =====
-- A payment handshake changes nothing in the client: it only adds to the history.
use solvela_go.Base.{Bytes, ℕ, zero, suc, ℤ, pos, negsuc, inl, inr, Option-cases}
use solvela_go.Errors.{Result, ok, err}
use solvela_go.Types.Chat.{ChatRequest, ChatResponse}
use solvela_go.Types.Payment.{PaymentRequired, PaymentPayload}
use solvela_go.Http.{Headers, HttpRequest, HttpOutcome, answered, broke}
use solvela_go.Library.{Library}
use solvela_go.Transport.{SendChatResult, response, payment_required, settle, send_chat}
use solvela_go.Client.{
  SolvelaClient, sign_payment_required, pay_and_resend, settled, send_with_payment,
}
use solvela_go.Client.Chat.{reason_of, retry_headers, quality_loop, with_retries, check_quality}
use solvela_go.Exec.{
  World, M, ◌>>=◌, raise, lift, Environment, SignRequest, Event, note, exchange, check_context,
  sign,
}
use solvela_go.Exec.Keeps.{
  Outcome, Contract, Contract-pure, Contract-raise, Contract-lift, Contract-if, Contract-bind,
}

module _ {ℓ} (lib : Library) (env : Environment) (c : SolvelaClient) (I : World → Type ℓ)
    (noted : (e : Event) (w : World) → I w → I (note e w)) where
  abbrev Stays {κ} : {A : Type κ} → M A → Type (ℓ ⊔ κ)
  Stays m = Contract I m (λ _. I) (λ _. I)

  pub lift-Stays {κ} : {A : Type κ} (r : Result A) → Stays (lift r)
  lift-Stays r = Contract-lift r (λ a e w i. i) (λ e _ w i. i)

  settle-Stays : (o : HttpOutcome) → Stays (settle env c.transport o)
  unfolding settle check_context ◌>>=◌ raise
  settle-Stays (answered r) = Contract-pure r (λ w i. i)
  settle-Stays (broke why) = record { at = λ w i. noted _ w i }

  pub exchange-Stays : (req : HttpRequest) → Stays (exchange env req)
  unfolding exchange
  exchange-Stays req = record { at = λ w i. noted _ w i }

  pub send_chat-Stays :
      (request : ChatRequest) (signature : Bytes) (extra : Headers)
      → Stays (send_chat lib env c.transport request signature extra)
  unfolding send_chat
  send_chat-Stays request signature extra = Contract-bind _ _ (lift-Stays _) λ body.
      Contract-bind _ _ (lift-Stays _) λ _. Contract-bind _ _ (exchange-Stays _) λ o.
        Contract-bind _ _ (settle-Stays o)
          λ r. Contract-bind _ _ (lift-Stays _) λ content. lift-Stays _

  sign-Stays : (req : SignRequest) → Stays (sign env req)
  unfolding sign
  sign-Stays req = record { at = λ w i. either (env.signer w.history req) (note _ w) (noted _ w i) }
    where
      either : (r : Result PaymentPayload) (w : World) → I w → Outcome (λ _. I) (λ _. I) r w
      either (ok payload) w i = i
      either (err e) w i = i

  pub sign_payment_required-Stays :
      (pr : PaymentRequired) → Stays (sign_payment_required lib env c pr)
  unfolding sign_payment_required
  sign_payment_required-Stays pr =
      Contract-bind _ _ (lift-Stays _)
        λ req. Contract-bind _ _ (sign-Stays req) λ payload. lift-Stays _

  pub settled-Stays : (r : SendChatResult) → Stays (settled r)
  unfolding settled
  settled-Stays (response r) = Contract-pure r (λ w i. i)
  settled-Stays (payment_required pr) = Contract-raise _ (λ w i. i)

  pay_and_resend-Stays :
      (request : ChatRequest) (extra : Headers) (r : SendChatResult)
      → Stays (pay_and_resend lib env c request extra r)
  unfolding pay_and_resend
  pay_and_resend-Stays request extra (response r) = Contract-pure r (λ w i. i)
  pay_and_resend-Stays request extra (payment_required pr) =
      Contract-bind _ _ (sign_payment_required-Stays pr)
        λ signature. Contract-bind _ _ (send_chat-Stays _ signature extra) settled-Stays

  pub send_with_payment-Stays :
      (request : ChatRequest) (extra : Headers) → Stays (send_with_payment lib env c request extra)
  unfolding send_with_payment
  send_with_payment-Stays request extra =
      Contract-bind _ _ (send_chat-Stays _ _ extra) λ r. pay_and_resend-Stays request extra r

  quality_loop-Stays :
      (left : ℕ) (request : ChatRequest) (r : ChatResponse)
      → Stays (quality_loop lib env c left request r)
  unfolding quality_loop
  quality_loop-Stays zero request r = elim (Option-cases (reason_of r)) [
    | inl good ↦ rw (good, quality_loop) (Contract-pure r (λ w i. i))
    | inr (why, bad) ↦ rw (bad, quality_loop) (Contract-raise _ (λ w i. i))
  ]
  quality_loop-Stays (suc left) request r = elim (Option-cases (reason_of r)) [
    | inl good ↦ rw (good, quality_loop) (Contract-pure r (λ w i. i))
    | inr (why, bad) ↦
        rw (bad, quality_loop)
          (Contract-bind _ _ (send_with_payment-Stays request retry_headers)
            λ r'. quality_loop-Stays left request r')
  ]

  with_retries-Stays :
      (n : ℤ) (request : ChatRequest) (r : ChatResponse)
      → Stays (with_retries lib env c n request r)
  unfolding with_retries
  with_retries-Stays (pos n) request r = quality_loop-Stays n request r
  with_retries-Stays (negsuc n) request r = Contract-pure r (λ w i. i)

  pub check_quality-Stays :
      (request : ChatRequest) (r : ChatResponse) → Stays (check_quality lib env c request r)
  unfolding check_quality
  check_quality-Stays request r =
      Contract-if c.config.enable_quality_check _ _
        (λ _. with_retries-Stays c.config.max_quality_retries request r)
        (λ _. Contract-pure r (λ w i. i))
