-- ===== src/Cache/Contents.antt =====
-- What the entries of a cache have in common.
use solvela_go.Base.{
  ℕ, ℤ, Option, none, some, List, [], ◌∷◌, inl, inr, Bool-cases, Option-cases, length, nat_eq,
}
use solvela_go.Types.Chat.{ChatResponse}
use solvela_go.Clock.{Time, is_older}
use solvela_go.Maps.{lookup, delete}
use solvela_go.Maps.Laws.{Values, lookup-Values, insert-Values, delete-Values}
use solvela_go.Cache.{CacheEntry, Entries, ResponseCache, evict, is_full, is_recent, get, put}

module _ {ℓ} (P : ChatResponse → Type ℓ) where
  -- Every response in the cache has the property.
  abbrev pub AllResponses : ResponseCache → Type ℓ
  AllResponses c = Values (λ (e : CacheEntry). P e.response) c.entries

  abbrev pub Answered : Option ChatResponse → Type ℓ
  Answered none = Unit
  Answered (some r) = P r

  pub get-AllResponses :
      (c : ResponseCache) (key : ℕ) (now : Time)
      → AllResponses c
      → AllResponses (get c key now).0 × Answered (get c key now).1
  unfolding get
  get-AllResponses c key now h = elim (Option-cases (lookup key c.entries)) [
    | inl miss ↦ rw (miss, get) (h, tt)
    | inr (e, hit) ↦ elim (Bool-cases (is_older now e.inserted c.ttl)) [
      | inl old ↦
          rw (hit, get)
            (rw old (delete-Values (λ (e : CacheEntry). P e.response) key c.entries h, tt))
      | inr fresh ↦
          rw (hit, get)
            (rw fresh (h, lookup-Values (λ (e : CacheEntry). P e.response) key c.entries h hit))
    ]
  ]

  evict-Values :
      (max : ℤ) (order : List ℕ) (entries : Entries)
      → Values (λ (e : CacheEntry). P e.response) entries
      → Values (λ (e : CacheEntry). P e.response) (evict max order entries).1
  unfolding evict
  evict-Values max [] entries h = h
  evict-Values max (oldest ∷ order) entries h = elim (Bool-cases (is_full max (length entries))) [
    | inl full ↦ rw full (
        evict-Values max order (delete oldest entries)
          (delete-Values (λ (e : CacheEntry). P e.response) oldest entries h))
    | inr fits ↦ rw fits h
  ]

  pub put-AllResponses :
      (c : ResponseCache) (key : ℕ) (r : ChatResponse) (checked stored : Time)
      → P r
      → AllResponses c
      → AllResponses (put c key r checked stored)
  unfolding put
  put-AllResponses c key r checked stored pr h =
      elim (Bool-cases (is_recent (lookup key c.entries) checked c.dedup_window)) [
        | inl recent ↦ rw recent h
        | inr stale ↦ rw stale (
            insert-Values (λ (e : CacheEntry). P e.response) key
              (record { response = r; inserted = stored }) (evict c.max_entries c.order c.entries).1
              pr (evict-Values c.max_entries c.order c.entries h))
      ]
