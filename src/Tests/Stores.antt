-- ===== src/Tests/Stores.antt =====
-- The cache and the sessions at concrete inputs.
use solvela_go.Base.{
  Bytes, pos, ◌≡◌, refl, true, some, none, List, [], ◌∷◌, codes, ◌==◌, bytes_eq, nat_eq, ℕ_discrete,
  if◌then◌else◌,
}
use solvela_go.Maps.{lookup, NodupKeys}
use solvela_go.Cache.{ResponseCache, get, put, is_recent}
use solvela_go.Cache.Invariant.{IsValid, new-IsValid, put-IsValid}
use solvela_go.Cache.Recency.{view, Reads, after_put, put_within, view-get, view-put}
use solvela_go.Sessions.{
  SessionEntry, SessionStore, new_session_store, get_or_create, record_request, cleanup_expired,
}
use solvela_go.Sessions.Strikes.{
  Call, get_or_create_call, record_call, cleanup_call, run, serve, Matches, tallied,
  escalated_iff_three_strikes,
}
use solvela_go.Sessions.Store.{current, info_of, get_or_create_lem, get_or_create-cleanup}
use solvela_go.Tests.Fixtures.{reply, cache, store}

-- Two responses in a cache that has room for two.
abbrev one : ResponseCache
one = put cache 1 (reply (codes "a")) 0 0

abbrev two : ResponseCache
two = put one 2 (reply (codes "b")) 1 1

cache-IsValid : IsValid cache
unfolding solvela_go.Cache.new_response_cache_with_config
cache-IsValid = new-IsValid (pos 2) (pos 300) (pos 2)

one-IsValid : IsValid one
one-IsValid = put-IsValid cache 1 (reply (codes "a")) 0 0 cache-IsValid

view-get_example : Reads one 1 5 (lookup 1 one.entries) × IsValid (get one 1 5).0
view-get_example = view-get one 1 5 one-IsValid

view-put_example :
    (if put_within (lookup 2 one.entries) 1 one.dedup_window
      then put one 2 (reply (codes "b")) 1 1 ≡ one
      else view (put one 2 (reply (codes "b")) 1 1)
        ≡ after_put 2
            (record { response = reply (codes "b"); inserted = 1 })
            one.max_entries
            (view one))
    × IsValid (put one 2 (reply (codes "b")) 1 1)
view-put_example = view-put one 2 (reply (codes "b")) 1 1 one-IsValid

-- The third response pushes out the first, and a response is gone once it is too old.
evicted :
    ((put two 3 (reply []) 2 2).order ≡ 2 ∷ 3 ∷ [])
    × ((get (put two 3 (reply []) 2 2) 1 3).1 ≡ none)
    × ((get one 1 400).1 ≡ none)
unfolding get put codes ℕ_discrete
evicted = (refl, refl, refl)

-- A session in which one request was made three times.
abbrev calls : List Call
calls =
    get_or_create_call (codes "s") (codes "m") 0 0
    ∷ record_call (codes "s") 4
    ∷ record_call (codes "s") 4
    ∷ cleanup_call (λ _. 1)
    ∷ record_call (codes "s") 4
    ∷ []

abbrev struck : SessionEntry
struck = record { model = codes "m"; created = 0; recent_hashes = 4 ∷ 4 ∷ 4 ∷ []; escalated = true }

struck_found : lookup (codes "s") (run calls (new_session_store (pos 60))).sessions ≡ some struck
unfolding run serve new_session_store get_or_create record_request cleanup_expired lookup codes
    bytes_eq
struck_found = refl

escalated_iff_three_strikes_example :
    Matches
      (lookup (codes "s") (run calls (new_session_store (pos 60))).sessions)
      (tallied (codes "s") (pos 60) calls none)
escalated_iff_three_strikes_example = escalated_iff_three_strikes (pos 60) calls (codes "s")

get_or_create_lem_example :
    ((get_or_create store (codes "s") (codes "m") 0 0).1
      ≡ info_of (current (lookup (codes "s") store.sessions) (codes "m") 0 0 store.ttl))
    × ((j : Bytes)
        → lookup j (get_or_create store (codes "s") (codes "m") 0 0).0.sessions ≡ (
            if codes "s" == j
            then some (current (lookup (codes "s") store.sessions) (codes "m") 0 0 store.ttl)
            else lookup j store.sessions))
get_or_create_lem_example = get_or_create_lem store (codes "s") (codes "m") 0 0

abbrev held : SessionStore
held = record { sessions = (codes "s", struck) ∷ []; ttl = pos 60 }

held_distinct : NodupKeys held.sessions
unfolding lookup
held_distinct = (refl, tt)

get_or_create-cleanup_example :
    (get_or_create (cleanup_expired held (λ _. 99)) (codes "s") (codes "n") 99 100).1
    ≡ (get_or_create held (codes "s") (codes "n") 99 100).1
get_or_create-cleanup_example =
    get_or_create-cleanup held (λ _. 99) (codes "s") (codes "n") 100 held_distinct
