-- ===== src/Cache.antt =====
-- cache.go: the response cache. The map is an association list with one entry to a key; each
-- operation takes the readings of the clock that it makes. The mutex makes an operation one step.
pub mod Order
pub mod Invariant
pub mod Recency
pub mod Contents
use solvela_go.Base.{
  Bytes, ℕ, zero, suc, ◌+◌, ◌*◌, ◌^◌, ℤ, pos, Bool, true, false, ◌&&◌, Option, none, some, List, [],
  ◌∷◌, ◌++◌, length, ltb_ℤ, not, ◌==◌, nat_eq, if◌then◌else◌,
}
use solvela_go.Types.Chat.{ChatResponse, ChatMessage}
use solvela_go.Maps.{Dict, lookup, delete, insert}
use solvela_go.Clock.{Time, is_older, is_younger}

pub record CacheEntry : Type 0 where
  pub response : ChatResponse
  pub inserted : Time

abbrev pub Entries : Type 0
Entries = Dict ℕ CacheEntry

pub record ResponseCache : Type 0 where
  pub entries : Entries
  pub order : List ℕ
  pub max_entries : ℤ
  pub ttl : ℤ
  pub dedup_window : ℤ

unfoldable pub new_response_cache_with_config : ℤ → ℤ → ℤ → ResponseCache
new_response_cache_with_config max_entries ttl dedup_window = record {
  entries = [];
  order = [];
  max_entries = max_entries;
  ttl = ttl;
  dedup_window = dedup_window;
}

unfoldable pub new_response_cache : ResponseCache
unfolding new_response_cache_with_config
new_response_cache =
    new_response_cache_with_config (pos 100) (pos (300 * 10 ^ 9)) (pos (2 * 10 ^ 9))

-- `removeFromOrder`: the first occurrence goes.
unfoldable pub remove_from_order : ℕ → List ℕ → List ℕ
remove_from_order key [] = []
remove_from_order key (k ∷ order) = if k == key then order else k ∷ remove_from_order key order

-- `Get`; `now` is read only if the key is there.
unfoldable pub get : ResponseCache → ℕ → Time → ResponseCache × Option ChatResponse
unfolding lookup delete remove_from_order is_older
get c key now = elim (lookup key c.entries) [
  | none ↦ (c, none)
  | some e ↦
      if is_older now e.inserted c.ttl
      then (
        record c { entries = delete key c.entries; order = remove_from_order key c.order },
        none,
      )
      else (record c { order = remove_from_order key c.order ++ key ∷ [] }, some e.response)
]

-- `len(c.entries) >= c.maxEntries`
unfoldable pub is_full : ℤ → ℕ → Bool
is_full max n = not (ltb_ℤ (pos n) max)

-- The loop of `Put` that makes room: it recurs on the order, which it shortens.
unfoldable pub evict : ℤ → List ℕ → Entries → List ℕ × Entries
unfolding delete is_full
evict max [] entries = ([], entries)
evict max (oldest ∷ order) entries =
    let rest = evict max order (delete oldest entries) in
    if is_full max (length entries) then rest else (oldest ∷ order, entries)

-- The entry was put within the dedup window.
unfoldable pub is_recent : Option CacheEntry → Time → ℤ → Bool
unfolding is_younger
is_recent none now window = false
is_recent (some e) now window = is_younger now e.inserted window

-- `Put`; `checked` is read by the dedup test, `stored` when the entry is made.
unfoldable pub put : ResponseCache → ℕ → ChatResponse → Time → Time → ResponseCache
unfolding lookup evict insert remove_from_order is_recent
put c key response checked stored =
    if is_recent (lookup key c.entries) checked c.dedup_window
    then c
    else let (order, entries) = evict c.max_entries c.order c.entries in
      record c {
        entries = insert key (record { response = response; inserted = stored }) entries;
        order = remove_from_order key order ++ key ∷ [];
      }
