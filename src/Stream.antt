-- ===== src/Stream.antt =====
-- transport.go: `SendChatStream`, its request and the loop that reads the stream; and client.go: the
-- stream made of a response, and the goroutine that hands a stream on. What a `select` does is a
-- parameter: whether the context was alive at the n-th test of it, and whether the n-th item was
-- taken before the context was done.
pub mod Laws
use solvela_go.Base.{
  Bytes, ℕ, ◌+◌, ◌*◌, ◌^◌, Bool, true, false, not, Option, none, some, List, [], ◌∷◌, ◌++◌, map,
  ◌==◌, nat_eq, bytes_eq, if◌then◌else◌, codes, drop,
}
use solvela_go.Strings.{has_prefix, trim_space}
use solvela_go.Errors
use solvela_go.Errors.{
  Error, Result, ok, err, lit, cause, foreign, wrapped, gateway_error, gateway_failure,
  payment_required_error,
}
use solvela_go.Types.Chat.{ChatRequest, ChatResponse, ChatChoice, ChatChunk}
use solvela_go.Types.Payment.{PaymentRequired}
use solvela_go.Wire.{unmarshal_payment_required}
use solvela_go.Http.{Headers, HttpResponse, HttpOutcome, answered, broke, Body, limited}
use solvela_go.Library.{Library}
use solvela_go.Transport.{Transport, max_response_bytes, check_url, post, read_error, wrap}
use solvela_go.Exec.{M, ◌>>=◌, lift, Environment, exchange}

-- `ChatChunkOrError`: exactly one of its two fields is set.
pub data ChatChunkOrError : Type 0 where
  chunk : ChatChunk → ChatChunkOrError
  failed : Error → ChatChunkOrError

abbrev pub max_line_bytes : ℕ
max_line_bytes = 2 ^ 20

-- The error of a 402 whose body was read.
unfoldable pub demanded : Result PaymentRequired → Error
demanded (ok pr) = payment_required_error pr
demanded (err e) = gateway_failure 402 (codes "parse 402 body: ") e

module _ (lib : Library) where
  unfoldable pub refusal : HttpResponse → Error
  unfolding limited demanded
  refusal r =
      let b = limited max_response_bytes r.body in
      elim b.fault [
        | none ↦ demanded (Errors.◌>>=◌ (lib.decode_required b.content) unmarshal_payment_required)
        | some why ↦ gateway_error 402 (lit "read 402 body: " ∷ cause why ∷ [])
      ]

  -- What `SendChatStream` makes of the answer: the body, to be read line by line, or an error.
  unfoldable pub opened : HttpOutcome → Result Body
  unfolding refusal read_error
  opened (broke why) = err (foreign why)
  opened (answered r) =
      if r.status == 402
      then err (refusal r)
      else if not (r.status == 200)
      then err (read_error r)
      else ok r.body

  -- `SendChatStream`, up to the goroutine that it starts
  unfoldable pub send_chat_stream : Environment → Transport → ChatRequest → Bytes → Headers → M Body
  send_chat_stream env t request signature extra = do
    body ←
        lift
          (wrap (codes "marshal request") (lib.encode_request (record request { stream = true })))
    _ ← lift (check_url (lib.parse_url (t.base_url ++ codes "/v1/chat/completions")))
    outcome ← exchange env (post t body signature extra)
    lift (opened outcome)

  -- The text behind the prefix of a line of data, and nothing for any other line.
  unfoldable pub data_of : Bytes → Option Bytes
  unfolding has_prefix trim_space drop
  data_of line = if has_prefix line (codes "data: ") then some (trim_space (drop 6 line)) else none

  module _ (alive taken : ℕ → Bool) where
    -- An item that is the last one, whether it is taken or not.
    unfoldable pub last_item : ℕ → Error → List ChatChunkOrError
    last_item n e = if taken n then failed e ∷ [] else []

    -- A chunk, and what follows if it is taken.
    unfoldable pub hand_over : ℕ → List ChatChunkOrError → Result ChatChunk → List ChatChunkOrError
    unfolding last_item
    hand_over n rest (err e) = last_item n e
    hand_over n rest (ok c) = if taken n then chunk c ∷ rest else []

    -- What is done with a line, given what the lines behind it yield.
    unfoldable pub on_line : ℕ → List ChatChunkOrError → Option Bytes → List ChatChunkOrError
    unfolding hand_over
    on_line n rest none = rest
    on_line n rest (some text) =
        if text == codes "[DONE]" then [] else hand_over n rest (lib.decode_chunk text)

    -- The error that ended the scan.
    unfoldable pub at_end : ℕ → Option Bytes → List ChatChunkOrError
    unfolding last_item
    at_end n none = []
    at_end n (some why) =
        if alive n then last_item n (wrapped (codes "stream read error") (foreign why)) else []

    -- The loop over the lines, by the number of the first of them.
    unfoldable pub read_lines : ℕ → List Bytes → Option Bytes → List ChatChunkOrError
    unfolding on_line data_of at_end
    read_lines n [] fault = at_end n fault
    read_lines n (line ∷ lines) fault =
        let rest = read_lines (n + 1) lines fault in
        if alive n then on_line n rest (data_of line) else []

    -- The goroutine of `SendChatStream`.
    unfoldable pub read_stream : Body → List ChatChunkOrError
    unfolding read_lines
    read_stream b = let (lines, fault) = lib.scan_lines max_line_bytes b in read_lines 0 lines fault

-- One chunk for a choice.
unfoldable pub chunk_of : ChatResponse → ChatChoice → ChatChunk
chunk_of r choice = record {
  id = r.id;
  object = r.object;
  created = r.created;
  model = r.model;
  choices =
      record {
        index = choice.index;
        delta = record {
          role = some choice.message.role;
          content = some choice.message.content;
          tool_calls = [];
        };
        finish_reason = choice.finish_reason;
      }
      ∷ [];
}

-- `synthesizeStreamFromResponse`
unfoldable pub synthesize_stream_from_response : ChatResponse → List ChatChunkOrError
unfolding chunk_of
synthesize_stream_from_response r = map (λ choice. chunk (chunk_of r choice)) r.choices

-- The goroutine of `ChatStream` that hands the items on: those that the caller gets, and whether it
-- saw the end of the stream.
unfoldable pub forward :
    (ℕ → Bool) → (ℕ → Bool) → ℕ → List ChatChunkOrError → List ChatChunkOrError × Bool
forward alive taken n [] = if alive n then ([], true) else ([], false)
forward alive taken n (x ∷ items) =
    let (rest, ended) = forward alive taken (n + 1) items in
    if alive n then (if taken n then (x ∷ rest, ended) else ([], false)) else ([], false)
