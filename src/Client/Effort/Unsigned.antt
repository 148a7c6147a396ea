-- ===== src/Client/Effort/Unsigned.antt =====
-- A client without a signer: it asks no price to be signed, so it never pays and never sends twice.
use solvela_go.Base.{ℕ, zero, suc, ◌+◌, ◌≤◌, ◌≡◌, refl, sym, false, arith}
use mathlib.Core.Path.{subst}
use solvela_go.Errors.{payment_required_error}
use solvela_go.Types.Chat.{ChatRequest}
use solvela_go.Types.Payment.{PaymentRequired}
use solvela_go.Http.{Headers}
use solvela_go.Library.{Library}
use solvela_go.Transport.{SendChatResult, response, payment_required}
use solvela_go.Client.{
  SolvelaClient, prepare_payment, sign_payment_required, pay_and_resend, send_with_payment,
}
use solvela_go.Client.Chat.{chat}
use solvela_go.Client.Effort.{send_chat-Adds, times-one}
use solvela_go.Client.Effort.Rounds.{retries_of, times, chat-Adds}
use solvela_go.Exec.{World, ◌>>=◌, raise, lift, Environment}
use solvela_go.Exec.Effort.{
  exchanges, signings, Within, Adds, Adds-bind, Adds-pure, Adds-raise, unconditional,
}

times-zero : (n : ℕ) → times n 0 ≡ 0
times-zero zero = refl
times-zero (suc n) = omega (arith, times-zero n)

module _ (lib : Library) (env : Environment) (c : SolvelaClient)
    (unsigned : c.has_signer ≡ false) where
  pub pay_and_resend_unsigned :
      (request : ChatRequest) (extra : Headers) (pr : PaymentRequired)
      → pay_and_resend lib env c request extra (payment_required pr)
        ≡ raise (payment_required_error pr)
  unfolding pay_and_resend sign_payment_required prepare_payment ◌>>=◌ lift raise
  pay_and_resend_unsigned request extra pr = simp unsigned

  pay_and_resend-Adds :
      (request : ChatRequest) (extra : Headers) (r : SendChatResult)
      → Adds (pay_and_resend lib env c request extra r) 0 0
  unfolding pay_and_resend
  pay_and_resend-Adds request extra (response r) = Adds-pure r
  pay_and_resend-Adds request extra (payment_required pr) =
      subst (λ m. Adds m 0 0) (sym (pay_and_resend_unsigned request extra pr)) (Adds-raise _)

  send-Adds :
      (request : ChatRequest) (extra : Headers)
      → Adds (send_with_payment lib env c request extra) 1 0
  unfolding send_with_payment
  send-Adds request extra =
      Adds-bind _ _ 1 0 0 0 (send_chat-Adds lib env c _ _ extra)
        λ r. pay_and_resend-Adds request extra r

  -- Without a signer one call of `Chat` with n retries, where n is 0 if the quality check is off or
  -- the number is negative, adds at most 1 + n requests to the gateway to the history, and none to a
  -- signer.
  pub chat_unsigned_effort :
      (request : ChatRequest) (w : World)
      → (exchanges (chat lib env c request w).1.history
          ≤ exchanges w.history + (1 + retries_of c.config))
        × (signings (chat lib env c request w).1.history ≤ signings w.history)
  chat_unsigned_effort request w =
      let n = retries_of c.config in
      let i =
        unconditional
          (Within (exchanges w.history + (1 + times n 1)) (signings w.history + (0 + times n 0)))
          (chat lib env c request w).0 _
          ((chat-Adds lib env c 1 0 send-Adds request (exchanges w.history) (signings w.history)).at
            w (record { posted = omega arith; paid = omega arith })) in
      (omega (arith, i.posted, times-one n), omega (arith, i.paid, times-zero n))
