-- ===== src/Library.antt =====
-- The parts of Go's standard library that the program calls and that are parameters here: a hash,
-- the parser of addresses, and `encoding/json` for each type that the program reads or writes.
-- Nothing is assumed of them but what a theorem names.
use solvela_go.Base.{Bytes, ℕ, Option, List}
use solvela_go.Errors.{Result}
use solvela_go.Types.Chat.{ChatRequest, ChatResponse, ChatChunk}
use solvela_go.Types.Payment.{PaymentPayload}
use solvela_go.Wire.{PaymentRequiredWire, ModelInfoWire}
use solvela_go.Http.{Body}
use solvela_go.Url.{UrlResult}

pub record Library : Type 0 where
  -- `sha256.Sum256`
  pub sha256 : Bytes → Bytes
  -- `url.Parse`
  pub parse_url : Bytes → UrlResult
  -- `json.Marshal` of a request and of a payment payload
  pub encode_request : ChatRequest → Result Bytes
  pub encode_payload : PaymentPayload → Result Bytes
  -- `json.Unmarshal` of a response, a 402 body and a chunk
  pub decode_response : Bytes → Result ChatResponse
  pub decode_required : Bytes → Result PaymentRequiredWire
  pub decode_chunk : Bytes → Result ChatChunk
  -- `json.Decoder.Decode` of a list of models: it reads no further than its first value
  pub decode_models : Body → Result (List ModelInfoWire)
  -- the lines of a `bufio.Scanner` with so many bytes of buffer, and the error that ends it, if one does
  pub scan_lines : ℕ → Body → List Bytes × Option Bytes
  -- the value of the key `error` of a JSON object, printed by `%v`; nothing for any other text
  pub decode_error : Bytes → Option Bytes
