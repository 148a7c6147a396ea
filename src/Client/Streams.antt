-- ===== src/Client/Streams.antt =====
-- client.go: `ChatStream`.
pub mod Safety
pub mod Effort
use solvela_go.Base.{Bytes, ℕ, Bool, true, false, Option, none, some, List, [], ◌∷◌, if◌then◌else◌}
use solvela_go.Types.Chat.{ChatRequest, ChatResponse}
use solvela_go.Http.{Body}
use solvela_go.Library.{Library}
use solvela_go.Stream.{
  ChatChunkOrError, synthesize_stream_from_response, send_chat_stream, read_stream, forward,
}
use solvela_go.Client.{SolvelaClient, Resolved, resolve_payment_signature}
use solvela_go.Client.Chat.{guarded_model, look_up_session, record_session}
use solvela_go.Exec.{World, M, ◌>>=◌, pure, Environment}

-- What the caller is given: items that are there already, or a body to be read.
pub data Stream : Type 0 where
  replayed : List ChatChunkOrError → Stream
  streaming : Body → Stream

-- The request that is sent: of the caller's it keeps the messages only.
unfoldable pub stream_request : ChatRequest → Bytes → ChatRequest
stream_request request model = record {
  model = model;
  messages = request.messages;
  max_tokens = none;
  temperature = none;
  top_p = none;
  stream = true;
  tools = [];
  tool_choice = none;
}

module _ (lib : Library) (env : Environment) (c : SolvelaClient) where
  -- The probe's own response, or the stream of a second request.
  unfoldable pub start_stream : ChatRequest → Bytes → Bytes → Resolved → M Stream
  start_stream request id model (signature, some r) = do
    _ ← record_session lib env c id model request.messages
    pure (replayed (synthesize_stream_from_response r))
  start_stream request id model (signature, none) = do
    body ← send_chat_stream lib env c.transport (stream_request request model) signature []
    pure (streaming body)

  -- `ChatStream`, up to the goroutine that it starts
  unfoldable pub chat_stream : ChatRequest → M Stream
  chat_stream request w =
      (do
        (id, model) ← look_up_session lib env c request (guarded_model c.config request w)
        r ← resolve_payment_signature lib env c (stream_request request model)
        start_stream request id model r)
        w

  -- What that goroutine does at the end: only a stream that was seen to end is recorded.
  unfoldable pub finish_stream :
      ChatRequest → Bytes → Bytes → List ChatChunkOrError × Bool → M (List ChatChunkOrError)
  finish_stream request id model (items, ended) =
      if ended
      then (record_session lib env c id model request.messages >>= (λ _. pure items))
      else pure items

  -- That goroutine on a body: what its reader yields is handed on.
  unfoldable pub follow_stream :
      (ℕ → Bool)
      → (ℕ → Bool)
      → (ℕ → Bool)
      → (ℕ → Bool)
      → ChatRequest
      → Bytes
      → Bytes
      → Body
      → M (List ChatChunkOrError)
  follow_stream alive taken alive' taken' request id model body =
      finish_stream request id model (forward alive' taken' 0 (read_stream lib alive taken body))
