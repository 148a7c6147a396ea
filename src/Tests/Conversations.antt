-- ===== src/Tests/Conversations.antt =====
-- Calls of `Chat` against the gateway of the fixtures.
use solvela_go.Base.{
  Bytes, ℕ, ◌≡◌, refl, ◌≤◌, ◌+◌, Option, none, some, List, [], ◌∷◌, inl, codes, take, length,
  bytes_eq, ◌*◌,
}
use solvela_go.Errors.{ok, err, quality_degraded, empty_content}
use solvela_go.Client.{send_with_payment, sign_payment_required, prepare_payment}
use solvela_go.Client.Chat.{chat, guarded_model}
use solvela_go.Client.Failed.{IsRead, chat_failed}
use solvela_go.Keys.{derive_session_id_with_salt}
use solvela_go.Client.Signatures.{IsSound}
use solvela_go.Client.Safety.{chat-IsSound}
use solvela_go.Client.Degraded.{Good, IsClean, chat-Good}
use solvela_go.Client.Effort.{chat_effort}
use solvela_go.Exec.Effort.{exchanges, signings}
use solvela_go.Exec.{World}
use solvela_go.Exec.Keeps.{Outcome}
use solvela_go.Tests.Fixtures.{lib, env, client, request, reply, world}

chat-IsSound_example :
    IsSound lib client (chat lib (env (codes "Hi.")) client request world).1.history
chat-IsSound_example = chat-IsSound lib (env (codes "Hi.")) client request world tt

chat-Good_example :
    Outcome
      (Good lib (env []) client)
      (λ _. IsClean)
      (chat lib (env []) client request world).0
      (chat lib (env []) client request world).1
chat-Good_example = chat-Good lib (env []) client 1 refl refl request world tt

chat_effort_example :
    (exchanges (chat lib (env []) client request world).1.history ≤ 0 + (2 + 2 * 1))
    × (signings (chat lib (env []) client request world).1.history ≤ 0 + (1 + 1))
chat_effort_example = chat_effort lib (env []) client request world

program : Unit {0}
unfolding solvela_go.Strings.trim_space solvela_go.Strings.contains_text solvela_go.Strings.to_lower
    solvela_go.Quality.is_repetitive solvela_go.Strings.fields solvela_go.Quality.is_truncated
    solvela_go.Strings.trim_right solvela_go.Client.Chat.chat solvela_go.Client.Chat.guarded_model
    solvela_go.Client.Chat.get_last_balance solvela_go.Client.Chat.look_up_session
    solvela_go.Client.Chat.with_session solvela_go.Client.Chat.check_cache
    solvela_go.Client.Chat.with_cache solvela_go.Client.Chat.answer
    solvela_go.Client.Chat.fetch_response solvela_go.Client.Chat.check_quality
    solvela_go.Client.Chat.with_retries solvela_go.Client.Chat.quality_loop
    solvela_go.Client.Chat.reason_of solvela_go.Client.Chat.reason_of_choices
    solvela_go.Client.Chat.store_response solvela_go.Client.Chat.into_cache
    solvela_go.Client.Chat.record_session solvela_go.Client.Chat.into_session
    solvela_go.Client.send_with_payment solvela_go.Client.pay_and_resend
    solvela_go.Client.sign_payment_required solvela_go.Client.settled
    solvela_go.Client.prepare_payment solvela_go.Client.offered solvela_go.Client.check_offer
    solvela_go.Client.encode_signature solvela_go.Exec.◌>>=◌ solvela_go.Exec.pure
    solvela_go.Exec.raise solvela_go.Exec.lift solvela_go.Exec.note solvela_go.Exec.read_clock
    solvela_go.Exec.exchange solvela_go.Exec.check_context solvela_go.Exec.sign
    solvela_go.Transport.send_chat solvela_go.Transport.wrap solvela_go.Transport.check_url
    solvela_go.Transport.chat_headers solvela_go.Transport.post solvela_go.Transport.settle
    solvela_go.Transport.classify solvela_go.Payment.find_compatible_scheme
    solvela_go.Payment.validate_payment solvela_go.Payment.validate_resource_origin
    solvela_go.Amount.parse_amount solvela_go.Quality.check_degraded solvela_go.Keys.cache_key
    solvela_go.Keys.derive_session_id_with_salt solvela_go.Floats.is_zero
    solvela_go.Base64.encode_base64 solvela_go.Wire.unmarshal_payment_required
    solvela_go.Wire.unmarshal_accepts solvela_go.Wire.unmarshal_payment_accept
    solvela_go.Wire.parse_scheme solvela_go.Http.limited solvela_go.Http.read_all
    solvela_go.Http.set_headers solvela_go.Maps.lookup solvela_go.Base.codes
    solvela_go.Base.bytes_eq solvela_go.Cache.get solvela_go.Cache.put
    solvela_go.Sessions.get_or_create solvela_go.Sessions.record_request
program = tt

-- One conversation: the request, the demand, the payment, and the answer.
paid :
    ((chat lib (env (codes "Hi.")) client request world).0 ≡ ok (reply (codes "Hi.")))
    × (exchanges (chat lib (env (codes "Hi.")) client request world).1.history ≡ 2)
    × (signings (chat lib (env (codes "Hi.")) client request world).1.history ≡ 1)
unfolding program
paid = (refl, refl, refl)

-- An empty answer is asked for once more, and then given up.
degraded :
    ((chat lib (env []) client request world).0 ≡ err (quality_degraded empty_content (reply [])))
    × (exchanges (chat lib (env []) client request world).1.history ≡ 4)
unfolding program
degraded = (refl, refl)

chat_failed_example :
    IsRead lib
      (derive_session_id_with_salt lib client.session_salt request.messages)
      (guarded_model client.config request world)
      request.messages
      world
      (chat lib (env []) client request world).1
chat_failed_example =
    chat_failed lib (env []) client request world (quality_degraded empty_content (reply []))
      degraded.0
