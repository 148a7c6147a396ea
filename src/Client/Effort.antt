-- ===== src/Client/Effort.antt =====
-- How often a call of `Chat` goes to the gateway and to the signer.
pub mod Rounds
pub mod Unsigned
use solvela_go.Base.{
  ◌≡◌, refl, Bytes, ℕ, zero, suc, ◌+◌, ◌*◌, ◌≤◌, ℤ, pos, negsuc, Bool, true, false, Option, none,
  some, List, [], ◌∷◌, inl, inr, Option-cases, if◌then◌else◌, arith,
}
use solvela_go.Errors.{Error, Result, ok, err}
use solvela_go.Config.{ClientConfig}
use solvela_go.Clock.{Time}
use solvela_go.Types.Chat.{ChatRequest, ChatResponse, ChatMessage}
use solvela_go.Types.Payment.{PaymentRequired, PaymentPayload}
use solvela_go.Http.{Headers, HttpRequest, HttpOutcome, answered, broke}
use solvela_go.Library.{Library}
use solvela_go.Transport.{SendChatResult, response, payment_required, settle, send_chat}
use solvela_go.Client.{
  SolvelaClient, sign_payment_required, pay_and_resend, settled, send_with_payment,
}
use solvela_go.Client.Chat.{
  guarded_model, reason_of, retry_headers, quality_loop, with_retries, check_quality,
  fetch_response, answer, chat, look_up_session, check_cache, store_response, record_session,
}
use solvela_go.Client.Steps.{
  look_up_session-Stays, check_cache-Stays, store_response-Stays, record_session-Stays,
}
use solvela_go.Exec.{
  World, M, ◌>>=◌, pure, raise, lift, Environment, SignRequest, History, clock_read, exchanged,
  context_checked, signed, note, exchange, check_context, sign,
}
use solvela_go.Exec.Keeps.{
  Outcome, Contract, Contract-pure, Contract-raise, Contract-lift, Contract-bind, Contract-loosen,
}
use solvela_go.Exec.Effort.{
  exchanges, signings, Within, Adds, widen, Adds-bind, Adds-pure, Adds-if, Adds-raise, Adds-lift,
  unconditional, exchange-Adds, sign-Adds,
}
use Rounds.{retries_of, times, chat-Adds}

pub times-two : (n : ℕ) → times n 2 ≡ 2 * n
times-two zero = refl
times-two (suc n) = omega (arith, times-two n)

pub times-one : (n : ℕ) → times n 1 ≡ n
times-one zero = refl
times-one (suc n) = omega (arith, times-one n)

module _ (lib : Library) (env : Environment) (c : SolvelaClient) where
  settle-Adds : (o : HttpOutcome) → Adds (settle env c.transport o) 0 0
  unfolding settle check_context note ◌>>=◌ raise
  settle-Adds (answered r) = Adds-pure r
  settle-Adds (broke why) = λ a b. record { at = λ w i. omega arith }

  pub send_chat-Adds :
      (request : ChatRequest) (signature : Bytes) (extra : Headers)
      → Adds (send_chat lib env c.transport request signature extra) 1 0
  unfolding send_chat
  send_chat-Adds request signature extra = Adds-bind _ _ 0 0 1 0 (Adds-lift _) λ body.
      Adds-bind _ _ 0 0 1 0 (Adds-lift _) λ _. Adds-bind _ _ 1 0 0 0 (exchange-Adds env _) λ o.
        Adds-bind _ _ 0 0 0 0 (settle-Adds o)
          λ r. Adds-bind _ _ 0 0 0 0 (Adds-lift _) λ content. Adds-lift _

  pub sign_payment_required-Adds :
      (pr : PaymentRequired) → Adds (sign_payment_required lib env c pr) 0 1
  unfolding sign_payment_required
  sign_payment_required-Adds pr =
      Adds-bind _ _ 0 0 0 1 (Adds-lift _)
        λ req. Adds-bind _ _ 0 1 0 0 (sign-Adds env req) λ payload. Adds-lift _

  settled-Adds : (r : SendChatResult) → Adds (settled r) 0 0
  unfolding settled
  settled-Adds (response r) = Adds-pure r
  settled-Adds (payment_required pr) = Adds-raise _

  pay_and_resend-Adds :
      (request : ChatRequest) (extra : Headers) (r : SendChatResult)
      → Adds (pay_and_resend lib env c request extra r) 1 1
  unfolding pay_and_resend
  pay_and_resend-Adds request extra (response r) =
      widen 0 0 1 1 (omega arith) (omega arith) (Adds-pure r)
  pay_and_resend-Adds request extra (payment_required pr) =
      Adds-bind _ _ 0 1 1 0 (sign_payment_required-Adds pr)
        λ signature. Adds-bind _ _ 1 0 0 0 (send_chat-Adds _ signature extra) settled-Adds

  send_with_payment-Adds :
      (request : ChatRequest) (extra : Headers)
      → Adds (send_with_payment lib env c request extra) 2 1
  unfolding send_with_payment
  send_with_payment-Adds request extra =
      Adds-bind _ _ 1 0 1 1 (send_chat-Adds _ _ extra) λ r. pay_and_resend-Adds request extra r

  -- One call of `Chat` with n retries, where n is 0 if the quality check is off or the number is
  -- negative, adds at most 2 + 2 n requests to the gateway and 1 + n requests to the signer to the
  -- history, whether it returns or fails.
  pub chat_effort :
      (request : ChatRequest) (w : World)
      → (exchanges (chat lib env c request w).1.history
          ≤ exchanges w.history + (2 + 2 * retries_of c.config))
        × (signings (chat lib env c request w).1.history
            ≤ signings w.history + (1 + retries_of c.config))
  chat_effort request w =
      let n = retries_of c.config in
      let i =
        unconditional
          (Within (exchanges w.history + (2 + times n 2)) (signings w.history + (1 + times n 1)))
          (chat lib env c request w).0 _
          ((chat-Adds lib env c 2 1 send_with_payment-Adds request (exchanges w.history)
              (signings w.history)).at
            w (record { posted = omega arith; paid = omega arith })) in
      (omega (arith, i.posted, times-two n), omega (arith, i.paid, times-one n))
