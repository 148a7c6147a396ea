-- ===== src/Client/Effort/Rounds.antt =====
-- How often a call of `Chat` goes to the gateway and to the signer, by how often one round does.
use solvela_go.Base.{
  Bool-cases, Bytes, ℕ, zero, suc, ◌+◌, ℤ, pos, negsuc, Option, none, some, List, [], inl, inr,
  Option-cases, if◌then◌else◌, arith,
}
use solvela_go.Config.{ClientConfig}
use solvela_go.Clock.{Time}
use solvela_go.Types.Chat.{ChatRequest, ChatResponse, ChatMessage}
use solvela_go.Http.{Headers}
use solvela_go.Library.{Library}
use solvela_go.Client.{SolvelaClient, send_with_payment}
use solvela_go.Client.Chat.{
  guarded_model, reason_of, retry_headers, quality_loop, with_retries, check_quality,
  fetch_response, answer, chat, look_up_session, check_cache, store_response, record_session,
}
use solvela_go.Client.Steps.{
  look_up_session-Stays, check_cache-Stays, store_response-Stays, record_session-Stays,
}
use solvela_go.Exec.{World, M, ◌>>=◌, Environment, clock_read, note}
use solvela_go.Exec.Keeps.{Contract, Contract-loosen}
use solvela_go.Exec.Effort.{Within, Adds, widen, Adds-bind, Adds-pure, Adds-raise}

-- How often the quality check may send again.
abbrev pub tries : ℤ → ℕ
tries (pos n) = n
tries (negsuc n) = 0

abbrev pub retries_of : ClientConfig → ℕ
retries_of config = if config.enable_quality_check then tries config.max_quality_retries else 0

abbrev pub times : ℕ → ℕ → ℕ
times zero k = 0
times (suc n) k = k + times n k

module _ (lib : Library) (env : Environment) (c : SolvelaClient) where
  inside_quiet :
      (a b : ℕ) (t : Time) (w : World) → Within a b w → Within a b (note (clock_read t) w)
  unfolding note
  inside_quiet a b t w i = record { posted = i.posted; paid = i.paid }

  Adds-Stays :
      {A : Type 0} {m : M A}
      → ((a b : ℕ) → Contract (Within a b) m (λ _. Within a b) (λ _. Within a b))
      → Adds m 0 0
  Adds-Stays k a b = Contract-loosen (k a b) (λ x w i. omega arith) (λ e w i. omega arith)

  pub store_response-Adds :
      (model : Bytes) (messages : List ChatMessage) (r : ChatResponse)
      → Adds (store_response lib env c model messages r) 0 0
  store_response-Adds model messages r = Adds-Stays λ a b.
      store_response-Stays lib env c (Within a b) (inside_quiet a b)
        (λ s w i. record { posted = i.posted; paid = i.paid }) model messages r

  pub record_session-Adds :
      (id model : Bytes) (messages : List ChatMessage)
      → Adds (record_session lib env c id model messages) 0 0
  record_session-Adds id model messages = Adds-Stays λ a b.
      record_session-Stays lib env c (Within a b) (inside_quiet a b)
        (λ s w i. record { posted = i.posted; paid = i.paid }) id model messages

  pub check_cache-Adds :
      (model : Bytes) (messages : List ChatMessage)
      → Adds (check_cache lib env c model messages) 0 0
  check_cache-Adds model messages = Adds-Stays λ a b.
      check_cache-Stays lib env c (Within a b) (inside_quiet a b)
        (λ s w i. record { posted = i.posted; paid = i.paid }) model messages

  pub look_up_session-Adds :
      (request : ChatRequest) (model : Bytes) → Adds (look_up_session lib env c request model) 0 0
  look_up_session-Adds request model = Adds-Stays λ a b.
      look_up_session-Stays lib env c (Within a b) (inside_quiet a b)
        (λ s w i. record { posted = i.posted; paid = i.paid }) request model

-- The request and its payment add at most `p` and `s`.
module _ (lib : Library) (env : Environment) (c : SolvelaClient) (p s : ℕ)
    (send : (request : ChatRequest) (extra : Headers)
      → Adds (send_with_payment lib env c request extra) p s) where
  quality_loop-Adds :
      (left : ℕ) (request : ChatRequest) (r : ChatResponse)
      → Adds (quality_loop lib env c left request r) (times left p) (times left s)
  unfolding quality_loop
  quality_loop-Adds zero request r = elim (Option-cases (reason_of r)) [
    | inl good ↦ rw (good, quality_loop) (Adds-pure r)
    | inr (why, bad) ↦ rw (bad, quality_loop) (Adds-raise _)
  ]
  quality_loop-Adds (suc left) request r = elim (Option-cases (reason_of r)) [
    | inl good ↦ rw (good, quality_loop) (widen 0 0 _ _ (omega arith) (omega arith) (Adds-pure r))
    | inr (why, bad) ↦
        rw (bad, quality_loop)
          (Adds-bind _ _ p s (times left p) (times left s) (send request retry_headers)
            λ r'. quality_loop-Adds left request r')
  ]

  with_retries-Adds :
      (retries : ℤ) (request : ChatRequest) (r : ChatResponse)
      → Adds
          (with_retries lib env c retries request r)
          (times (tries retries) p)
          (times (tries retries) s)
  unfolding with_retries
  with_retries-Adds (pos n) request r = quality_loop-Adds n request r
  with_retries-Adds (negsuc n) request r = Adds-pure r

  check_quality-Adds :
      (request : ChatRequest) (r : ChatResponse)
      → Adds
          (check_quality lib env c request r)
          (times (retries_of c.config) p)
          (times (retries_of c.config) s)
  unfolding check_quality
  check_quality-Adds request r = elim (Bool-cases c.config.enable_quality_check) [
    | inl on ↦ simp on (with_retries-Adds c.config.max_quality_retries request r)
    | inr off ↦ simp off (Adds-pure r)
  ]

  fetch_response-Adds :
      (request : ChatRequest) (id model : Bytes)
      → Adds
          (fetch_response lib env c request id model)
          (p + times (retries_of c.config) p)
          (s + times (retries_of c.config) s)
  unfolding fetch_response
  fetch_response-Adds request id model =
      let n = retries_of c.config in
      Adds-bind _ _ p s (times n p) (times n s) (send _ []) λ first.
        widen (times n p + 0) (times n s + 0) (times n p) (times n s) (omega arith) (omega arith) (
          Adds-bind _ _ (times n p) (times n s) 0 0 (check_quality-Adds _ first) λ r.
            Adds-bind _ _ 0 0 0 0 (store_response-Adds lib env c model request.messages r) λ _.
              Adds-bind _ _ 0 0 0 0 (record_session-Adds lib env c id model request.messages)
                λ _. Adds-pure r)

  answer-Adds :
      (request : ChatRequest) (id model : Bytes) (cached : Option ChatResponse)
      → Adds
          (answer lib env c request id model cached)
          (p + times (retries_of c.config) p)
          (s + times (retries_of c.config) s)
  unfolding answer
  answer-Adds request id model (some cached) =
      widen 0 0 _ _ (omega arith) (omega arith) (Adds-pure cached)
  answer-Adds request id model none = fetch_response-Adds request id model

  steps-Adds :
      (request : ChatRequest) (model : Bytes)
      → Adds
          (look_up_session lib env c request model >>= λ s.
            check_cache lib env c s.1 request.messages >>= answer lib env c request s.0 s.1)
          (p + times (retries_of c.config) p)
          (s + times (retries_of c.config) s)
  steps-Adds request model =
      widen (0 + (0 + (p + times (retries_of c.config) p)))
        (0 + (0 + (s + times (retries_of c.config) s))) _ _ (omega arith) (omega arith)
        (Adds-bind _ _ 0 0 _ _ (look_up_session-Adds lib env c request model) λ s.
          Adds-bind _ _ 0 0 _ _ (check_cache-Adds lib env c s.1 request.messages)
            λ cached. answer-Adds request s.0 s.1 cached)

  pub chat-Adds :
      (request : ChatRequest)
      → Adds
          (chat lib env c request)
          (p + times (retries_of c.config) p)
          (s + times (retries_of c.config) s)
  unfolding chat
  chat-Adds request a b = record {
    at = λ w i. (steps-Adds request (guarded_model c.config request w) a b).at w i;
  }
