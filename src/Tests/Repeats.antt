-- ===== src/Tests/Repeats.antt =====
-- A request that is asked twice.
use solvela_go.Base.{
  Bytes, ℕ, ◌≡◌, refl, sym, ◌∙◌, true, false, Option, none, some, [], ◌∷◌, pos, codes, nat_eq,
  bytes_eq,
}
use mathlib.Core.Path.{subst}
use solvela_go.Errors.{ok}
use solvela_go.Clock.{is_older}
use solvela_go.Maps.{lookup}
use solvela_go.Maps.Laws.{lookup-Values, Values}
use solvela_go.Cache.{ResponseCache, CacheEntry}
use solvela_go.Cache.Invariant.{new-IsValid}
use solvela_go.Sessions.{SessionStore, SessionEntry}
use solvela_go.Keys.{cache_key, derive_session_id_with_salt}
use solvela_go.Client.Chat.{chat, set_last_balance, guarded_model, look_up_session}
use solvela_go.Client.{SolvelaClient}
use solvela_go.Client.Repeated.{session_id}
use solvela_go.Client.Fallback.Lasting.{Unexpired, now, reports, fallback_sticks}
use solvela_go.Client.Repeated.Again.{IsFresh, chat_again}
use solvela_go.Exec.{World}
use solvela_go.Exec.Effort.{exchanges, signings}
use solvela_go.Tests.Fixtures.{config, lib, env, client, request, reply, world, cache, store}

abbrev after : World
after = (chat lib (env (codes "Hi.")) client request world).1

program : Unit {0}
unfolding solvela_go.Strings.trim_space solvela_go.Strings.contains_text solvela_go.Strings.to_lower
    solvela_go.Quality.is_repetitive solvela_go.Strings.fields solvela_go.Quality.is_truncated
    solvela_go.Strings.trim_right solvela_go.Client.Chat.chat solvela_go.Client.Chat.guarded_model
    solvela_go.Client.Chat.get_last_balance solvela_go.Client.Chat.look_up_session
    solvela_go.Client.Chat.with_session solvela_go.Client.Chat.check_cache
    solvela_go.Client.Chat.with_cache solvela_go.Client.Chat.answer
    solvela_go.Client.Chat.fetch_response solvela_go.Client.Chat.check_quality
    solvela_go.Client.Chat.with_retries solvela_go.Client.Chat.quality_loop
    solvela_go.Client.Chat.reason_of solvela_go.Client.Chat.reason_of_choices
    solvela_go.Client.Chat.store_response solvela_go.Client.Chat.into_cache
    solvela_go.Client.Chat.record_session solvela_go.Client.Chat.into_session
    solvela_go.Client.send_with_payment solvela_go.Client.pay_and_resend
    solvela_go.Client.sign_payment_required solvela_go.Client.settled
    solvela_go.Client.prepare_payment solvela_go.Client.offered solvela_go.Client.check_offer
    solvela_go.Client.encode_signature solvela_go.Exec.◌>>=◌ solvela_go.Exec.pure
    solvela_go.Exec.raise solvela_go.Exec.lift solvela_go.Exec.note solvela_go.Exec.read_clock
    solvela_go.Exec.exchange solvela_go.Exec.check_context solvela_go.Exec.sign
    solvela_go.Transport.send_chat solvela_go.Transport.wrap solvela_go.Transport.check_url
    solvela_go.Transport.chat_headers solvela_go.Transport.post solvela_go.Transport.settle
    solvela_go.Transport.classify solvela_go.Payment.find_compatible_scheme
    solvela_go.Payment.validate_payment solvela_go.Payment.validate_resource_origin
    solvela_go.Amount.parse_amount solvela_go.Quality.check_degraded solvela_go.Keys.cache_key
    solvela_go.Keys.derive_session_id_with_salt solvela_go.Floats.is_zero
    solvela_go.Base64.encode_base64 solvela_go.Wire.unmarshal_payment_required
    solvela_go.Wire.unmarshal_accepts solvela_go.Wire.unmarshal_payment_accept
    solvela_go.Wire.parse_scheme solvela_go.Http.limited solvela_go.Http.read_all
    solvela_go.Http.set_headers solvela_go.Maps.lookup solvela_go.Base.codes
    solvela_go.Base.bytes_eq solvela_go.Cache.get solvela_go.Cache.put
    solvela_go.Sessions.get_or_create solvela_go.Sessions.record_request
program = tt

abbrev store_after : SessionStore
store_after = record store {
  sessions =
      (
        derive_session_id_with_salt lib client.session_salt request.messages,
        record {
          model = request.model;
          created = 7;
          recent_hashes = cache_key lib request.model request.messages ∷ [];
          escalated = false;
        },
      )
      ∷ [];
}

abbrev cache_after : ResponseCache
cache_after = record cache {
  entries =
      (
        cache_key lib request.model request.messages,
        record { response = reply (codes "Hi."); inserted = 7 },
      )
      ∷ [];
  order = cache_key lib request.model request.messages ∷ [];
}

answered : (chat lib (env (codes "Hi.")) client request world).0 ≡ ok (reply (codes "Hi."))
unfolding program
answered = refl

stored : after.session_store ≡ some store_after
unfolding program
stored = refl

kept : after.cache ≡ some cache_after
unfolding program
kept = refl

young_session :
    (t s : SessionStore) (id : Bytes) (e : SessionEntry)
    → Values (λ (e : SessionEntry). is_older 7 e.created t.ttl ≡ false) t.sessions
    → t ≡ s
    → lookup id s.sessions ≡ some e
    → is_older 7 e.created s.ttl ≡ false
young_session t s id e all same =
    subst (λ (s : SessionStore). lookup id s.sessions ≡ some e → is_older 7 e.created s.ttl ≡ false)
      same
      λ found.
        lookup-Values (λ (e : SessionEntry). is_older 7 e.created t.ttl ≡ false) id t.sessions all
          found

young_response :
    (c : ResponseCache) (key : ℕ) (e : CacheEntry)
    → cache_after ≡ c
    → lookup key c.entries ≡ some e
    → is_older 7 e.inserted c.ttl ≡ false
unfolding is_older
young_response c key e same =
    subst
      (λ (c : ResponseCache). lookup key c.entries ≡ some e → is_older 7 e.inserted c.ttl ≡ false)
      same
      λ found.
        lookup-Values (λ (e : CacheEntry). is_older 7 e.inserted (pos 300) ≡ false) key
          cache_after.entries (refl, tt) found

same_store : (t s : SessionStore) → some t ≡ some s → t ≡ s
same_store t s same = cc

same_cache : (c : ResponseCache) → some cache_after ≡ some c → cache_after ≡ c
same_cache c same = cc

fresh : IsFresh lib (env (codes "Hi.")) client request after
unfolding is_older
fresh = record {
  sessions = λ s id e same found.
      young_session store_after s id e (refl, tt) (same_store store_after s (sym stored ∙ same))
        found;
  responses = λ c key e same found. young_response c key e (same_cache c (sym kept ∙ same)) found;
}

chat_again_example :
    ((chat lib (env (codes "Hi.")) client request after).0 ≡ ok (reply (codes "Hi.")))
    × (exchanges (chat lib (env (codes "Hi.")) client request after).1.history
        ≡ exchanges after.history)
    × (signings (chat lib (env (codes "Hi.")) client request after).1.history
        ≡ signings after.history)
unfolding solvela_go.Cache.new_response_cache_with_config
chat_again_example =
    chat_again lib (env (codes "Hi.")) client request world cache (reply (codes "Hi.")) refl
      (new-IsValid (pos 2) (pos 300) (pos 2)) answered fresh

-- A client with a free model, whose first call is made with an empty balance.
abbrev free_client : SolvelaClient
free_client = record client { config = record config { free_fallback_model = codes "free" } }

abbrev broke : World
broke = record world { last_balance_set = true }

abbrev free_store : SessionStore
free_store = record store {
  sessions =
      (
        derive_session_id_with_salt lib client.session_salt request.messages,
        record { model = codes "free"; created = 7; recent_hashes = []; escalated = false },
      )
      ∷ [];
}

abbrev topped_up : World
topped_up = set_last_balance 1 (chat lib (env []) free_client request broke).1

free_stored : topped_up.session_store ≡ some free_store
unfolding program set_last_balance
free_stored = refl

free_young : Unexpired lib (env []) free_client (session_id lib free_client request) topped_up
unfolding is_older
free_young s e same found =
    young_session free_store s _ e (refl, tt) (same_store free_store s (sym free_stored ∙ same))
      found

fallback_sticks_example :
    (look_up_session lib
      (env [])
      free_client
      request
      (guarded_model free_client.config request topped_up)
      topped_up).0
    ≡ ok (session_id lib free_client request, codes "free")
unfolding program set_last_balance
fallback_sticks_example =
    fallback_sticks lib (env []) free_client request request broke topped_up store refl refl refl
      refl refl (reports 1 now) refl refl free_young
