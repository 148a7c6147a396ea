-- ===== src/Errors/Text.antt =====
-- errors.go: the `Error` methods, and quality.go: the texts of the reasons. A text is given by its
-- pieces, each value beside the verb that prints it.
use solvela_go.Base.{[], ◌∷◌}
use solvela_go.Errors.{
  Error, client_error, wallet_error, signer_error, insufficient_balance, gateway_error,
  gateway_failure, payment_required_error, payment_rejected, recipient_mismatch, amount_exceeds_max,
  timeout_error, quality_degraded, foreign, wrapped, Message, Part, lit, str, decimal, cause,
  seconds, DegradedReason, empty_content, known_error_phrase, repetitive_loop, truncated_mid_word,
}

-- The constants of `DegradedReason`
unfoldable pub reason_text : DegradedReason → Part
reason_text empty_content = lit "empty_content"
reason_text known_error_phrase = lit "known_error_phrase"
reason_text repetitive_loop = lit "repetitive_loop"
reason_text truncated_mid_word = lit "truncated_mid_word"

-- The `Error` methods; of an error of the standard library it is the text that is kept.
unfoldable pub error_text : Error → Message
unfolding reason_text
error_text (client_error message) = message
error_text (wallet_error message) = lit "wallet error: " ∷ message
error_text (signer_error message) = lit "signer error: " ∷ str message ∷ []
error_text (insufficient_balance have need) =
    lit "insufficient balance: have " ∷ decimal have ∷ lit ", need " ∷ decimal need ∷ []
error_text (gateway_error status message) =
    lit "gateway error " ∷ decimal status ∷ lit ": " ∷ message
error_text (gateway_failure status text e) =
    lit "gateway error " ∷ decimal status ∷ lit ": " ∷ str text ∷ error_text e
error_text (payment_required_error pr) =
    lit "payment required: " ∷ str pr.cost_breakdown.total ∷ lit " USDC" ∷ []
error_text (payment_rejected reason) = lit "payment rejected: " ∷ str reason ∷ []
error_text (recipient_mismatch expected actual) =
    lit "recipient mismatch: expected " ∷ str expected ∷ lit ", got " ∷ str actual ∷ []
error_text (amount_exceeds_max amount max_amount) =
    lit "amount " ∷ decimal amount ∷ lit " exceeds max " ∷ decimal max_amount ∷ []
error_text (timeout_error duration) =
    lit "request timed out after " ∷ seconds duration ∷ lit "s" ∷ []
error_text (quality_degraded reason r) =
    lit "response quality degraded after retries: " ∷ reason_text reason ∷ []
error_text (foreign text) = cause text ∷ []
error_text (wrapped prefix e) = str prefix ∷ lit ": " ∷ error_text e
