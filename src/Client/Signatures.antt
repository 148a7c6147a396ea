-- ===== src/Client/Signatures.antt =====
-- What leaves the client: every payment that the signer is asked for is allowed, and every signature
-- on a request is one that the signer gave.
use solvela_go.Base.{
  Bytes, ℕ, ◌≡◌, refl, ◌⊎◌, false, Option, none, some, [], ◌∷◌, inl, inr, ◌==◌, bytes_eq,
  if◌then◌else◌, Bool-cases, Option-cases, arith, codes, zero, suc,
}
use solvela_go.Errors.{Result, ok, err}
use solvela_go.Types.Chat.{ChatRequest, ChatResponse}
use solvela_go.Types.Payment.{PaymentRequired, PaymentPayload}
use solvela_go.Maps.{lookup}
use solvela_go.Http.{Headers, HttpRequest, HttpOutcome, answered, broke}
use solvela_go.Library.{Library}
use solvela_go.Transport.{
  Transport, SendChatResult, response, payment_required, chat_headers, post, settle, send_chat,
}
use solvela_go.Client.{
  SolvelaClient, encode_signature, sign_payment_required, pay_and_resend, settled,
  send_with_payment,
}
use solvela_go.Client.Offers.{IsAuthorised, prepare_payment-IsAuthorised}
use solvela_go.Client.Chat.{retry_headers, reason_of, quality_loop}
use solvela_go.Exec.{
  World, M, ◌>>=◌, raise, Environment, SignRequest, Event, History, clock_read, exchanged,
  context_checked, signed, note, exchange, check_context, sign,
}
use solvela_go.Exec.Keeps.{
  Outcome, Contract, Contract-pure, Contract-raise, Contract-lift, Contract-bind,
}

abbrev pub signature_of : HttpRequest → Option Bytes
signature_of req = lookup (codes "Payment-Signature") req.headers

-- The event is in the history.
abbrev pub Occurred : Event → History → Type 0
Occurred e [] = ⊥
Occurred e (x ∷ h) = (e ≡ x) ⊎ Occurred e h

module _ (lib : Library) where
  -- The signer gave the signature, for a payment that it was asked for.
  pub record IsLicensed (signature : Bytes) (h : History) : Type 0 where
    pub request : SignRequest
    pub payload : PaymentPayload
    pub given : Occurred (signed request (ok payload)) h
    pub encoded : encode_signature lib payload ≡ ok signature

module _ (lib : Library) (c : SolvelaClient) where
  abbrev pub IsSoundEvent : Event → History → Type 0
  IsSoundEvent (clock_read t) h = Unit
  IsSoundEvent (exchanged req o) h =
      (signature_of req ≡ none)
      ⊎ ((signature : Bytes) × (signature_of req ≡ some signature) × IsLicensed lib signature h)
  IsSoundEvent (context_checked b) h = Unit
  IsSoundEvent (signed req r) h = IsAuthorised lib c.config req

  -- Each event is sound for the history before it.
  abbrev pub IsSound : History → Type 0
  IsSound [] = Unit
  IsSound (e ∷ h) = IsSoundEvent e h × IsSound h

-- Extra headers that leave the signature alone.
abbrev pub IsHarmless : Headers → Type 0
IsHarmless extra =
    (signature : Bytes)
    → lookup (codes "Payment-Signature") (chat_headers signature extra)
      ≡ (if signature == [] then none else some signature)

pub none-IsHarmless : IsHarmless []
unfolding chat_headers codes lookup bytes_eq
none-IsHarmless [] = refl
none-IsHarmless (b ∷ s) = refl

pub retry-IsHarmless : IsHarmless retry_headers
unfolding chat_headers codes lookup bytes_eq
retry-IsHarmless [] = refl
retry-IsHarmless (b ∷ s) = refl

module _ (lib : Library) (env : Environment) (c : SolvelaClient) where
  abbrev Sound : World → Type 0
  Sound w = IsSound lib c w.history

  -- A signature that may go out: none, or one that the signer gave.
  abbrev pub MaySend : Bytes → World → Type 0
  MaySend signature w = (signature ≡ []) ⊎ IsLicensed lib signature w.history

  settle-Sound :
      (o : HttpOutcome) → Contract Sound (settle env c.transport o) (λ _. Sound) (λ _. Sound)
  unfolding settle check_context note ◌>>=◌ raise
  settle-Sound (answered r) = Contract-pure r (λ w s. s)
  settle-Sound (broke why) = record { at = λ w s. (tt, s) }

  sent :
      (req : HttpRequest) (w : World) (signature : Bytes)
      → signature_of req ≡ (if signature == [] then none else some signature)
      → MaySend signature w
      → (signature_of req ≡ none)
        ⊎ ((s : Bytes) × (signature_of req ≡ some s) × IsLicensed lib s w.history)
  sent req w signature e (inl unsigned) = inl (ground arith)
  sent req w signature e (inr licensed) = elim (Bool-cases (signature == [])) [
    | inl unsigned ↦ inl (ground arith)
    | inr differs ↦ inr (signature, ground arith, licensed)
  ]

  pub exchange-Sound :
      (t : Transport) (body signature : Bytes) (extra : Headers)
      → IsHarmless extra
      → Contract
          (λ w. Sound w × MaySend signature w)
          (exchange env (post t body signature extra))
          (λ _. Sound)
          (λ _. Sound)
  unfolding exchange note post
  exchange-Sound t body signature extra harmless = record {
    at = λ w (s, may). (sent (post t body signature extra) w signature (harmless signature) may, s);
  }

  pub send_chat-Sound :
      (request : ChatRequest) (signature : Bytes) (extra : Headers)
      → IsHarmless extra
      → Contract
          (λ w. Sound w × MaySend signature w)
          (send_chat lib env c.transport request signature extra)
          (λ _. Sound)
          (λ _. Sound)
  unfolding send_chat
  send_chat-Sound request signature extra harmless =
      Contract-bind _ _ (Contract-lift _ (λ a e w p. p) (λ e _ w p. p.0)) λ body.
        Contract-bind _ _ (Contract-lift _ (λ a e w p. p) (λ e _ w p. p.0)) λ _.
          Contract-bind _ _ (exchange-Sound c.transport body signature extra harmless) λ o.
            Contract-bind _ _ (settle-Sound o) λ r.
              Contract-bind _ _ (Contract-lift _ (λ a e w p. p) (λ e _ w p. p))
                λ content. Contract-lift _ (λ a e w p. p) (λ e _ w p. p)

  sign-Sound :
      (req : SignRequest)
      → Contract
          (λ w. Sound w × IsAuthorised lib c.config req)
          (sign env req)
          (λ payload w. Sound w × Occurred (signed req (ok payload)) w.history)
          (λ _. Sound)
  unfolding sign note
  sign-Sound req = record { at = λ w (s, allowed). given (env.signer w.history req) w s allowed }
    where
      given :
          (r : Result PaymentPayload) (w : World)
          → Sound w
          → IsAuthorised lib c.config req
          → Outcome
              (λ payload w. Sound w × Occurred (signed req (ok payload)) w.history)
              (λ _. Sound)
              r
              (note (signed req r) w)
      given (ok payload) w s allowed = ((allowed, s), inl refl)
      given (err e) w s allowed = (allowed, s)

  pub sign_payment_required-Sound :
      (pr : PaymentRequired)
      → Contract Sound
          (sign_payment_required lib env c pr)
          (λ signature w. Sound w × IsLicensed lib signature w.history)
          (λ _. Sound)
  unfolding sign_payment_required
  sign_payment_required-Sound pr =
      Contract-bind {Q = λ req w. Sound w × IsAuthorised lib c.config req} _ _
        (Contract-lift _ (λ req e w s. (s, (prepare_payment-IsAuthorised lib c pr e).0))
          (λ e _ w s. s))
        λ req. Contract-bind _ _ (sign-Sound req) λ payload.
          Contract-lift _
            (λ signature e w (s, given).
              (s, record { request = req; payload = payload; given = given; encoded = e }))
            (λ e _ w p. p.0)

  pay_and_resend-Sound :
      (request : ChatRequest) (extra : Headers) (r : SendChatResult)
      → IsHarmless extra
      → Contract Sound (pay_and_resend lib env c request extra r) (λ _. Sound) (λ _. Sound)
  unfolding pay_and_resend settled
  pay_and_resend-Sound request extra (response r) harmless = Contract-pure r (λ w s. s)
  pay_and_resend-Sound request extra (payment_required pr) harmless =
      Contract-bind _ _ (sign_payment_required-Sound pr) λ signature.
        Contract-bind {Q = λ _. Sound} _ _
          (weaken (send_chat-Sound (record request { stream = false }) signature extra harmless))
          settled-Sound
    where
      weaken :
          {signature : Bytes} {m : M SendChatResult}
          → Contract (λ w. Sound w × MaySend signature w) m (λ _. Sound) (λ _. Sound)
          → Contract (λ w. Sound w × IsLicensed lib signature w.history) m (λ _. Sound) (λ _. Sound)
      weaken k = record { at = λ w (s, l). k.at w (s, inr l) }

      settled-Sound : (r : SendChatResult) → Contract Sound (settled r) (λ _. Sound) (λ _. Sound)
      settled-Sound (response r) = Contract-pure r (λ w s. s)
      settled-Sound (payment_required pr) = Contract-raise _ (λ w s. s)

  pub send_with_payment-Sound :
      (request : ChatRequest) (extra : Headers)
      → IsHarmless extra
      → Contract Sound (send_with_payment lib env c request extra) (λ _. Sound) (λ _. Sound)
  unfolding send_with_payment
  send_with_payment-Sound request extra harmless =
      Contract-bind _ _
        (record {
          at = λ w s.
              (send_chat-Sound (record request { stream = false }) [] extra harmless).at w
                (s, inl refl);
        })
        λ r. pay_and_resend-Sound request extra r harmless

  pub quality_loop-Sound :
      (left : ℕ) (request : ChatRequest) (r : ChatResponse)
      → Contract Sound (quality_loop lib env c left request r) (λ _. Sound) (λ _. Sound)
  unfolding quality_loop
  quality_loop-Sound zero request r = elim (Option-cases (reason_of r)) [
    | inl good ↦ rw (good, quality_loop) (Contract-pure r (λ w s. s))
    | inr (why, bad) ↦ rw (bad, quality_loop) (Contract-raise _ (λ w s. s))
  ]
  quality_loop-Sound (suc left) request r = elim (Option-cases (reason_of r)) [
    | inl good ↦ rw (good, quality_loop) (Contract-pure r (λ w s. s))
    | inr (why, bad) ↦
        rw (bad, quality_loop)
          (Contract-bind _ _ (send_with_payment-Sound request retry_headers retry-IsHarmless)
            λ r'. quality_loop-Sound left request r')
  ]
