-- ===== src/Client/Streams/Effort.antt =====
-- How often a call of `ChatStream` goes to the gateway and to the signer.
use solvela_go.Base.{Bytes, ◌+◌, ◌≤◌, none, some, [], arith}
use solvela_go.Types.Chat.{ChatRequest}
use solvela_go.Library.{Library}
use solvela_go.Stream.{send_chat_stream}
use solvela_go.Transport.{SendChatResult, response, payment_required}
use solvela_go.Client.{SolvelaClient, Resolved, resolved, resolve_payment_signature}
use solvela_go.Client.Chat.{guarded_model, look_up_session}
use solvela_go.Exec.Effort.{
  exchanges, signings, Within, Adds, widen, Adds-bind, Adds-pure, Adds-lift, unconditional,
  exchange-Adds,
}
use solvela_go.Client.Effort.{send_chat-Adds, sign_payment_required-Adds}
use solvela_go.Client.Effort.Rounds.{record_session-Adds, look_up_session-Adds}
use solvela_go.Client.Streams.{stream_request, start_stream, chat_stream}
use solvela_go.Exec.{World, ◌>>=◌, Environment}

module _ (lib : Library) (env : Environment) (c : SolvelaClient) where
  send_chat_stream-Adds :
      (request : ChatRequest) (signature : Bytes)
      → Adds (send_chat_stream lib env c.transport request signature []) 1 0
  unfolding send_chat_stream
  send_chat_stream-Adds request signature = Adds-bind _ _ 0 0 1 0 (Adds-lift _) λ body.
      Adds-bind _ _ 0 0 1 0 (Adds-lift _)
        λ _. Adds-bind _ _ 1 0 0 0 (exchange-Adds env _) λ o. Adds-lift _

  resolved-Adds : (r : SendChatResult) → Adds (resolved lib env c r) 0 1
  unfolding resolved
  resolved-Adds (response r) = widen 0 0 0 1 (omega arith) (omega arith) (Adds-pure _)
  resolved-Adds (payment_required pr) =
      Adds-bind _ _ 0 1 0 0 (sign_payment_required-Adds lib env c pr) λ signature. Adds-pure _

  resolve-Adds : (request : ChatRequest) → Adds (resolve_payment_signature lib env c request) 1 1
  unfolding resolve_payment_signature
  resolve-Adds request = Adds-bind _ _ 1 0 0 1 (send_chat-Adds lib env c _ [] []) resolved-Adds

  start_stream-Adds :
      (request : ChatRequest) (id model : Bytes) (x : Resolved)
      → Adds (start_stream lib env c request id model x) 1 0
  unfolding start_stream
  start_stream-Adds request id model (signature, some r) =
      widen 0 0 1 0 (omega arith) (omega arith) (
        Adds-bind _ _ 0 0 0 0 (record_session-Adds lib env c id model request.messages)
          λ _. Adds-pure _)
  start_stream-Adds request id model (signature, none) =
      Adds-bind _ _ 1 0 0 0 (send_chat_stream-Adds _ signature) λ body. Adds-pure _

  steps-Adds :
      (request : ChatRequest) (model : Bytes)
      → Adds
          (look_up_session lib env c request model >>= λ s.
            resolve_payment_signature lib env c (stream_request request s.1)
            >>= start_stream lib env c request s.0 s.1)
          2
          1
  steps-Adds request model = widen (0 + (1 + 1)) (0 + (1 + 0)) 2 1 (omega arith) (omega arith) (
      Adds-bind _ _ 0 0 _ _ (look_up_session-Adds lib env c request model)
        λ s. Adds-bind _ _ 1 1 1 0 (resolve-Adds _) λ x. start_stream-Adds request s.0 s.1 x)

  chat_stream-Adds : (request : ChatRequest) → Adds (chat_stream lib env c request) 2 1
  unfolding chat_stream
  chat_stream-Adds request a b = record {
    at = λ w i. (steps-Adds request (guarded_model c.config request w) a b).at w i;
  }

  -- One call of `ChatStream` adds at most two requests to the gateway and one to the signer to the
  -- history, whether it returns or fails.
  pub chat_stream_effort :
      (request : ChatRequest) (w : World)
      → (exchanges (chat_stream lib env c request w).1.history ≤ exchanges w.history + 2)
        × (signings (chat_stream lib env c request w).1.history ≤ signings w.history + 1)
  chat_stream_effort request w =
      let i =
        unconditional (Within (exchanges w.history + 2) (signings w.history + 1))
          (chat_stream lib env c request w).0 _
          ((chat_stream-Adds request (exchanges w.history) (signings w.history)).at w
            (record { posted = omega arith; paid = omega arith })) in
      (i.posted, i.paid)
