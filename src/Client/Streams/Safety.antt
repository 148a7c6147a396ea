-- ===== src/Client/Streams/Safety.antt =====
-- No call of `ChatStream` lets a payment or a signature out that should not be.
use solvela_go.Base.{Bytes, refl, false, none, some, [], inl, inr}
use solvela_go.Types.Chat.{ChatRequest}
use solvela_go.Library.{Library}
use solvela_go.Stream.{send_chat_stream}
use solvela_go.Transport.{SendChatResult, response, payment_required}
use solvela_go.Client.{SolvelaClient, Resolved, resolved, resolve_payment_signature}
use solvela_go.Client.Chat.{guarded_model}
use solvela_go.Client.Steps.{look_up_session-Stays, record_session-Stays}
use solvela_go.Client.Signatures.{
  IsSound, none-IsHarmless, MaySend, exchange-Sound, send_chat-Sound, sign_payment_required-Sound,
}
use solvela_go.Client.Safety.{KeepsSound, after_action}
use solvela_go.Client.Streams.{stream_request, start_stream, chat_stream}
use solvela_go.Exec.{World, M, Environment, note}
use solvela_go.Exec.Keeps.{Contract, Contract-pure, Contract-lift, Contract-bind}

module _ (lib : Library) (env : Environment) (c : SolvelaClient) where
  abbrev Sound : World → Type 0
  Sound w = IsSound lib c w.history

  -- The world after a payment was resolved, and a signature that may go out.
  abbrev May : Bytes → World → Type 0
  May signature w = Sound w × MaySend lib env c signature w

  send_chat_stream-Sound :
      (request : ChatRequest) (signature : Bytes)
      → Contract
          (May signature)
          (send_chat_stream lib env c.transport request signature [])
          (λ _. Sound)
          (λ _. Sound)
  unfolding send_chat_stream
  send_chat_stream-Sound request signature =
      Contract-bind _ _ (Contract-lift _ (λ a e w p. p) (λ e _ w p. p.0)) λ body.
        Contract-bind _ _ (Contract-lift _ (λ a e w p. p) (λ e _ w p. p.0)) λ _.
          Contract-bind _ _ (exchange-Sound lib env c c.transport body signature [] none-IsHarmless)
            λ o. Contract-lift _ (λ a e w p. p) (λ e _ w p. p)

  resolved-Sound :
      (r : SendChatResult)
      → Contract Sound (resolved lib env c r) (λ (x : Resolved). May x.0) (λ _. Sound)
  unfolding resolved
  resolved-Sound (response r) = Contract-pure _ (λ w s. (s, inl refl))
  resolved-Sound (payment_required pr) =
      Contract-bind _ _ (sign_payment_required-Sound lib env c pr)
        λ signature. Contract-pure _ (λ w (s, licensed). (s, inr licensed))

  unsigned :
      {A : Type 0} {m : M A}
      → Contract (May []) m (λ _. Sound) (λ _. Sound)
      → KeepsSound lib env c m
  unsigned k = record { at = λ w s. k.at w (s, inl refl) }

  resolve-Sound :
      (request : ChatRequest)
      → Contract Sound
          (resolve_payment_signature lib env c request)
          (λ (x : Resolved). May x.0)
          (λ _. Sound)
  unfolding resolve_payment_signature
  resolve-Sound request =
      Contract-bind {Q = λ _. Sound} _ _
        (unsigned
          (send_chat-Sound lib env c (record request { stream = false }) [] [] none-IsHarmless))
        resolved-Sound

  start_stream-Sound :
      (request : ChatRequest) (id model : Bytes) (x : Resolved)
      → Contract (May x.0) (start_stream lib env c request id model x) (λ _. Sound) (λ _. Sound)
  unfolding start_stream note
  start_stream-Sound request id model (signature, some r) =
      Contract-bind {Q = λ _. Sound} _ _
        (record {
          at = λ w p.
              (record_session-Stays lib env c Sound (λ t w s. (tt, s)) (λ _ w s. s) id model
                  request.messages).at
                w p.0;
        })
        λ _. Contract-pure _ (λ w s. s)
  start_stream-Sound request id model (signature, none) =
      Contract-bind _ _ (send_chat_stream-Sound _ signature) λ body. Contract-pure _ (λ w s. s)

  chat_stream-Contract :
      (request : ChatRequest) → KeepsSound lib env c (chat_stream lib env c request)
  unfolding chat_stream note
  chat_stream-Contract request = record {
    at = λ w s.
        (Contract-bind _ _
            (look_up_session-Stays lib env c Sound (λ t w k. (tt, k)) (λ _ w k. k) request
              (guarded_model c.config request w))
            λ (id, model).
              Contract-bind _ _ (resolve-Sound (stream_request request model))
                λ x. start_stream-Sound request id model x).at
          w s;
  }

  -- Whatever the gateway, the clock and the signer answer, and whether the call returns or fails:
  -- after a call of `ChatStream`, as before it, the signer was only asked for payments that the
  -- configuration allows, and a request carried a Payment-Signature only if the signer had given it
  -- before.
  pub chat_stream-IsSound :
      (request : ChatRequest) (w : World)
      → IsSound lib c w.history
      → IsSound lib c (chat_stream lib env c request w).1.history
  chat_stream-IsSound request w s =
      after_action lib env c (chat_stream lib env c request) w (chat_stream-Contract request) s
