-- ===== src/Transport.antt =====
-- transport.go: the requests to the gateway, and what is made of each answer.
use solvela_go.Base.{
  Bytes, ℕ, ◌*◌, ◌^◌, ℤ, false, none, some, List, [], ◌∷◌, ◌++◌, map, ◌==◌, nat_eq, bytes_eq,
  if◌then◌else◌, codes,
}
use solvela_go.Strings.{trim_right}
use solvela_go.Errors
use solvela_go.Errors.{
  Error, Result, ok, err, Message, lit, str, cause, foreign, wrapped, gateway_error, timeout_error,
  payment_required_error,
}
use solvela_go.Types.Chat.{ChatRequest, ChatResponse}
use solvela_go.Types.Payment.{PaymentRequired}
use solvela_go.Wire.{unmarshal_payment_required, ModelInfo, unmarshal_model_info}
use solvela_go.Url.{UrlResult, address, malformed}
use solvela_go.Http.{
  Headers, HttpRequest, HttpResponse, HttpOutcome, answered, broke, set_header, set_headers,
  limited, read_all,
}
use solvela_go.Library.{Library}
use solvela_go.Exec.{M, ◌>>=◌, pure, raise, lift, Environment, exchange, check_context}

abbrev pub max_response_bytes : ℕ
max_response_bytes = 10 * 2 ^ 20

abbrev pub max_error_body_bytes : ℕ
max_error_body_bytes = 4 * 2 ^ 10

-- The HTTP client of the source follows no redirect and holds nothing else that the model sees.
pub record Transport : Type 0 where
  pub base_url : Bytes
  pub timeout : ℤ

unfoldable pub new_transport : Bytes → ℤ → Transport
new_transport base_url timeout = record {
  base_url = trim_right base_url (codes "/");
  timeout = timeout;
}

-- `SendChatResult`: exactly one of its two pointers is set.
pub data SendChatResult : Type 0 where
  response : ChatResponse → SendChatResult
  payment_required : PaymentRequired → SendChatResult

-- `fmt.Errorf("prefix: %w", err)` on an error.
unfoldable pub wrap {ℓ} : {A : Type ℓ} → Bytes → Result A → Result A
wrap prefix (ok a) = ok a
wrap prefix (err e) = err (wrapped prefix e)

-- `http.NewRequestWithContext` refuses an address that cannot be parsed.
unfoldable pub check_url : UrlResult → Result (Unit {0})
check_url (address u) = ok tt
check_url (malformed why) = err (foreign why)

-- The headers of a chat request: an empty signature sets none.
unfoldable pub chat_headers : Bytes → Headers → Headers
unfolding set_headers
chat_headers signature extra =
    let headers = set_header (codes "Content-Type") (codes "application/json") [] in
    set_headers extra (
      if signature == [] then headers else set_header (codes "Payment-Signature") signature headers)

unfoldable pub post : Transport → Bytes → Bytes → Headers → HttpRequest
unfolding chat_headers
post t body signature extra = record {
  method = codes "POST";
  url = t.base_url ++ codes "/v1/chat/completions";
  headers = chat_headers signature extra;
  body = body;
}

-- An exchange that failed: a timeout if the context is done.
unfoldable pub settle : Environment → Transport → HttpOutcome → M HttpResponse
settle env t (answered r) = pure r
settle env t (broke why) = do
  done ← check_context env
  raise (if done then timeout_error t.timeout else foreign why)

-- The error of a refusal: the start of its body, or why that could not be read.
unfoldable pub read_error : HttpResponse → Error
unfolding limited
read_error r =
    let b = limited max_error_body_bytes r.body in
    gateway_error r.status (elim b.fault [
      | none ↦ str b.content ∷ []
      | some why ↦ lit "read error body: " ∷ cause why ∷ []
    ])

module _ (lib : Library) where
  -- What is made of a body that was read.
  unfoldable pub classify : ℕ → Bytes → Result SendChatResult
  unfolding wrap
  classify status content =
      if status == 200
      then Errors.◌>>=◌ (wrap (codes "parse error") (lib.decode_response content))
          (λ r. ok (response r))
      else if status == 402
      then Errors.◌>>=◌
          (wrap (codes "parse 402 error")
            (Errors.◌>>=◌ (lib.decode_required content) unmarshal_payment_required))
          (λ pr. ok (payment_required pr))
      else err (
          gateway_error status
            (elim (lib.decode_error content) [ none ↦ str content ∷ [] | some e ↦ str e ∷ [] ]))

  module _ (env : Environment) (t : Transport) where
    -- `SendChat`
    unfoldable pub send_chat : ChatRequest → Bytes → Headers → M SendChatResult
    send_chat request signature extra = do
      body ←
          lift (
            wrap (codes "marshal request") (lib.encode_request (record request { stream = false })))
      _ ← lift (check_url (lib.parse_url (t.base_url ++ codes "/v1/chat/completions")))
      outcome ← exchange env (post t body signature extra)
      resp ← settle env t outcome
      content ← lift (read_all (limited max_response_bytes resp.body))
      lift (classify resp.status content)

    unfoldable pub fetched : HttpOutcome → Result (List ModelInfo)
    unfolding read_error wrap
    fetched (broke why) = err (foreign why)
    fetched (answered r) =
        if r.status == 200
        then Errors.◌>>=◌
            (wrap (codes "parse models") (lib.decode_models (limited max_response_bytes r.body)))
            (λ models. ok (map unmarshal_model_info models))
        else err (read_error r)

    -- `FetchModels`
    unfoldable pub fetch_models : M (List ModelInfo)
    fetch_models = do
      _ ← lift (check_url (lib.parse_url (t.base_url ++ codes "/v1/models")))
      outcome ← exchange env (record {
        method = codes "GET";
        url = t.base_url ++ codes "/v1/models";
        headers = [];
        body = [];
      })
      lift (fetched outcome)
