-- ===== src/Client/Calls/Alone.antt =====
-- A call that no other interrupts is the call of Client/Chat.
use solvela_go.Base.{
  Bytes, ℕ, zero, suc, ℤ, pos, negsuc, Bool, true, false, Option, none, some, [], ◌≡◌, refl, sym,
  ◌∙◌, inl, inr, Option-cases, if◌then◌else◌,
}
use solvela_go.Errors.{Result, ok, err}
use solvela_go.Types.Chat.{ChatRequest, ChatResponse}
use solvela_go.Http.{Headers}
use solvela_go.Library.{Library}
use solvela_go.Transport.{SendChatResult, response, payment_required, send_chat}
use solvela_go.Client.{
  SolvelaClient, probe, settled, sign_payment_required, pay_and_resend, send_with_payment,
}
use solvela_go.Client.Chat.{
  guarded_model, look_up_session, check_cache, retry_headers, reason_of, quality_loop, with_retries,
  check_quality, fetch_response, answer, chat,
}
use solvela_go.Client.Calls.{
  Process, run, pay_process, send_process, retry_process, retries_process, quality_process,
  keep_process, answer_process, read_model, chat_process,
}
use solvela_go.Exec.{World, M, continue, ◌>>=◌, pure, raise, Environment}

-- The same results and the same worlds
abbrev Same : {A : Type 0} → M A → M A → Type 0
Same m n = (w : World) → m w ≡ n w

continue-Same :
    {A B : Type 0} (r : Result A) (f g : A → M B)
    → ((a : A) → Same (f a) (g a))
    → Same (continue r f) (continue r g)
continue-Same (ok a) f g same w = same a w
continue-Same (err e) f g same w = refl

bind-Same :
    {A B : Type 0} (m : M A) (f g : A → M B)
    → ((a : A) → Same (f a) (g a))
    → Same (m >>= f) (m >>= g)
unfolding ◌>>=◌
bind-Same m f g same w = continue-Same (m w).0 f g same (m w).1

continue_assoc :
    {A B C : Type 0} (r : Result A) (f : A → M B) (g : B → M C) (w : World)
    → (continue r f >>= g) w ≡ continue r (λ a. f a >>= g) w
unfolding ◌>>=◌
continue_assoc (ok a) f g w = refl
continue_assoc (err e) f g w = refl

bind_assoc :
    {A B C : Type 0} (m : M A) (f : A → M B) (g : B → M C)
    → Same (m >>= (λ a. f a >>= g)) ((m >>= f) >>= g)
unfolding ◌>>=◌
bind_assoc m f g w = sym (continue_assoc (m w).0 f g (m w).1)

run_if :
    (b : Bool) (p q : Process) (m n : M ChatResponse) (f : ChatResponse → M ChatResponse)
    → Same (run p) (m >>= f)
    → Same (run q) (n >>= f)
    → Same (run (if b then p else q)) ((if b then m else n) >>= f)
run_if true p q m n f checked unchecked = checked
run_if false p q m n f checked unchecked = unchecked

module _ (lib : Library) (env : Environment) (c : SolvelaClient) where
  run-pay_process :
      (request : ChatRequest) (extra : Headers) (r : SendChatResult) (next : ChatResponse → Process)
      → Same
          (run (pay_process lib env c request extra r next))
          (pay_and_resend lib env c request extra r >>= λ x. run (next x))
  unfolding pay_process pay_and_resend run ◌>>=◌ pure
  run-pay_process request extra (response r) next w = refl
  run-pay_process request extra (payment_required pr) next w =
      bind-Same (sign_payment_required lib env c pr) _ _ (λ a. bind_assoc _ settled _) w
      ∙ bind_assoc (sign_payment_required lib env c pr) _ (λ x. run (next x)) w

  run-send_process :
      (request : ChatRequest) (extra : Headers) (next : ChatResponse → Process)
      → Same
          (run (send_process lib env c request extra next))
          (send_with_payment lib env c request extra >>= λ x. run (next x))
  unfolding send_process send_with_payment run
  run-send_process request extra next w =
      bind-Same (send_chat lib env c.transport (probe request) [] extra) _ _
        (λ r. run-pay_process request extra r next) w
      ∙ bind_assoc (send_chat lib env c.transport (probe request) [] extra)
          (pay_and_resend lib env c request extra) (λ x. run (next x)) w

  run-retry_process :
      (left : ℕ) (request : ChatRequest) (r : ChatResponse) (next : ChatResponse → Process)
      → Same
          (run (retry_process lib env c left request r next))
          (quality_loop lib env c left request r >>= λ x. run (next x))
  unfolding retry_process quality_loop run ◌>>=◌ pure raise
  run-retry_process zero request r next w = elim (Option-cases (reason_of r)) [
    | inl good ↦ rw (good, retry_process, quality_loop) refl
    | inr (why, bad) ↦ rw (bad, retry_process, quality_loop) refl
  ]
  run-retry_process (suc left) request r next w = elim (Option-cases (reason_of r)) [
    | inl good ↦ rw (good, retry_process, quality_loop) refl
    | inr (why, bad) ↦
        rw (bad, retry_process, quality_loop)
          (run-send_process request retry_headers _ w
            ∙ bind-Same (send_with_payment lib env c request retry_headers) _ _
                (λ r'. run-retry_process left request r' next) w
            ∙ bind_assoc (send_with_payment lib env c request retry_headers)
                (quality_loop lib env c left request) (λ x. run (next x)) w)
  ]

  run-retries_process :
      (n : ℤ) (request : ChatRequest) (r : ChatResponse) (next : ChatResponse → Process)
      → Same
          (run (retries_process lib env c n request r next))
          (with_retries lib env c n request r >>= λ x. run (next x))
  unfolding retries_process with_retries run ◌>>=◌ pure
  run-retries_process (pos n) request r next w = run-retry_process n request r next w
  run-retries_process (negsuc n) request r next w = refl

  run-quality_process :
      (request : ChatRequest) (r : ChatResponse) (next : ChatResponse → Process)
      → Same
          (run (quality_process lib env c request r next))
          (check_quality lib env c request r >>= λ x. run (next x))
  unfolding quality_process check_quality ◌>>=◌ pure
  run-quality_process request r next =
      run_if c.config.enable_quality_check _ _ _ _ (λ x. run (next x))
        (run-retries_process c.config.max_quality_retries request r next) (λ w. refl)

  run-answer_process :
      (request : ChatRequest) (id model : Bytes) (found : Option ChatResponse)
      → Same
          (run (answer_process lib env c request id model found))
          (answer lib env c request id model found)
  unfolding answer_process answer fetch_response keep_process run
  run-answer_process request id model (some cached) w = refl
  run-answer_process request id model none w =
      run-send_process _ [] _ w ∙ bind-Same _ _ _ (λ first. run-quality_process _ first _) w

  -- A call of `Chat` whose steps no other call interrupts is the call of `Chat` as a whole: it gives the
  -- same result and leaves the same world.
  pub run-chat_process :
      (request : ChatRequest) (w : World)
      → run (chat_process lib env c request) w ≡ chat lib env c request w
  unfolding chat_process read_model chat run ◌>>=◌
  run-chat_process request w =
      bind-Same (look_up_session lib env c request (guarded_model c.config request w)) _ _
        (λ (id, model).
          bind-Same (check_cache lib env c model request.messages) _ _
            λ found. run-answer_process request id model found)
        w
