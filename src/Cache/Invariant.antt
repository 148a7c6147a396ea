-- ===== src/Cache/Invariant.antt =====
-- What holds of a cache between two calls: the map and the order list hold the same keys, each once,
-- and no more of them than the cache has room for.
use solvela_go.Base.{
  ℕ, zero, suc, ◌+◌, ◌≤◌, ◌≡◌, refl, sym, false, ℤ, pos, negsuc, some, List, [], ◌∷◌, ◌++◌, arith,
  contains, nat_eq, length, length-append, inl, inr, ◌⊎◌, Option-cases, Bool-cases,
}
use mathlib.Core.Path.{subst}
use solvela_go.Types.Chat.{ChatResponse}
use solvela_go.Clock.{Time, is_older}
use solvela_go.Maps.{lookup, delete, insert, NodupKeys, is_some}
use solvela_go.Maps.Laws.{
  lookup-insert, lookup-delete, insert-NodupKeys, delete-NodupKeys, length-insert, length-delete,
}
use solvela_go.Cache.{
  CacheEntry, Entries, ResponseCache, remove_from_order, evict, is_full, is_recent, get, put,
  new_response_cache_with_config,
}
use solvela_go.Cache.Order.{
  Distinct, contains-remove, remove-Distinct, contains-push, push-Distinct, length-remove,
}

-- The map and the order list hold the same keys, each once.
pub record Agrees (order : List ℕ) (entries : Entries) : Type 0 where
  pub distinct_keys : NodupKeys entries
  pub distinct_order : Distinct order
  pub same_keys : (key : ℕ) → contains order key ≡ is_some (lookup key entries)
  pub same_length : length order ≡ length entries

-- How many entries a cache may hold: a bound below one still leaves room for one.
abbrev pub room : ℤ → ℕ
room (pos zero) = 1
room (pos (suc n)) = suc n
room (negsuc n) = 1

pub record IsValid (c : ResponseCache) : Type 0 where
  pub agrees : Agrees c.order c.entries
  pub bounded : length c.entries ≤ room c.max_entries

pub new-IsValid : (max ttl window : ℤ) → IsValid (new_response_cache_with_config max ttl window)
unfolding new_response_cache_with_config lookup
new-IsValid max ttl window = record {
  agrees = record {
    distinct_keys = tt;
    distinct_order = tt;
    same_keys = λ key. refl;
    same_length = refl;
  };
  bounded = omega arith;
}

-- A key taken out of both.
pub delete-Agrees :
    (key : ℕ) (order : List ℕ) (entries : Entries)
    → Agrees order entries
    → Agrees (remove_from_order key order) (delete key entries)
delete-Agrees key order entries a = record {
  distinct_keys = delete-NodupKeys key entries a.distinct_keys;
  distinct_order = remove-Distinct key order a.distinct_order;
  same_keys = λ j. ground (
    arith,
    contains-remove key j order a.distinct_order,
    lookup-delete key j entries a.distinct_keys,
    a.same_keys j,
  );
  same_length =
      ground
        (arith, length-remove key order, length-delete key entries, a.same_keys key, a.same_length);
}

-- A key put into the map and moved to the end of the order.
pub insert-Agrees :
    (key : ℕ) (e : CacheEntry) (order : List ℕ) (entries : Entries)
    → Agrees order entries
    → Agrees (remove_from_order key order ++ key ∷ []) (insert key e entries)
insert-Agrees key e order entries a = record {
  distinct_keys = insert-NodupKeys key e entries a.distinct_keys;
  distinct_order =
      push-Distinct key (remove_from_order key order)
        (ground (arith, contains-remove key key order a.distinct_order))
        (remove-Distinct key order a.distinct_order);
  same_keys = λ j. ground (
    arith,
    contains-push key j (remove_from_order key order),
    contains-remove key j order a.distinct_order,
    lookup-insert key j e entries,
    a.same_keys j,
  );
  same_length = ground (
    arith,
    length-append (remove_from_order key order) (key ∷ []),
    length-remove key order,
    length-insert key e entries,
    a.same_keys key,
    a.same_length,
  );
}

-- A key that is there moved to the end of the order.
pub touch-Agrees :
    (key : ℕ) (e : CacheEntry) (order : List ℕ) (entries : Entries)
    → lookup key entries ≡ some e
    → Agrees order entries
    → Agrees (remove_from_order key order ++ key ∷ []) entries
touch-Agrees key e order entries found a = record {
  distinct_keys = a.distinct_keys;
  distinct_order =
      push-Distinct key (remove_from_order key order)
        (ground (arith, contains-remove key key order a.distinct_order))
        (remove-Distinct key order a.distinct_order);
  same_keys = λ j. ground (
    arith,
    contains-push key j (remove_from_order key order),
    contains-remove key j order a.distinct_order,
    a.same_keys j,
  );
  same_length = ground (
    arith,
    length-append (remove_from_order key order) (key ∷ []),
    length-remove key order,
    a.same_keys key,
    a.same_length,
  );
}

-- The head of the order taken out of both.
pub tail-Agrees :
    (key : ℕ) (order : List ℕ) (entries : Entries)
    → Agrees (key ∷ order) entries
    → Agrees order (delete key entries)
unfolding remove_from_order
tail-Agrees key order entries a =
    let first : remove_from_order key (key ∷ order) ≡ order = ground arith in
    subst (λ o. Agrees o (delete key entries)) first (delete-Agrees key (key ∷ order) entries a)

-- The loop of `put` ends with room for one more entry, or with nothing left.
pub evict-Agrees :
    (max : ℤ) (order : List ℕ) (entries : Entries)
    → Agrees order entries
    → Agrees (evict max order entries).0 (evict max order entries).1
      × ((is_full max (length (evict max order entries).1) ≡ false)
          ⊎ (length (evict max order entries).1 ≡ 0))
unfolding evict
evict-Agrees max [] entries a = (a, inr (sym a.same_length))
evict-Agrees max (oldest ∷ order) entries a = elim (Bool-cases (is_full max (length entries))) [
  | inl full ↦
      rw full (evict-Agrees max order (delete oldest entries) (tail-Agrees oldest order entries a))
  | inr fits ↦ rw fits (a, inl fits)
]

room_for_one : (max : ℤ) (n : ℕ) → (is_full max n ≡ false) ⊎ (n ≡ 0) → n + 1 ≤ room max
unfolding is_full
room_for_one (pos zero) n h = ground arith
room_for_one (pos (suc k)) n h = ground arith
room_for_one (negsuc k) n h = ground arith

-- A read keeps the invariant, whether it hits, misses or finds an entry that is too old.
pub get-IsValid : (c : ResponseCache) (key : ℕ) (now : Time) → IsValid c → IsValid (get c key now).0
unfolding get
get-IsValid c key now v = elim (Option-cases (lookup key c.entries)) [
  | inl miss ↦ rw (miss, get) v
  | inr (e, hit) ↦ elim (Bool-cases (is_older now e.inserted c.ttl)) [
    | inl old ↦
        rw (hit, get)
          (rw old (record {
            agrees = delete-Agrees key c.order c.entries v.agrees;
            bounded = ground (arith, length-delete key c.entries, v.bounded);
          }))
    | inr fresh ↦
        rw (hit, get)
          (rw fresh (record {
            agrees = touch-Agrees key e c.order c.entries hit v.agrees;
            bounded = v.bounded;
          }))
  ]
]

pub put-IsValid :
    (c : ResponseCache) (key : ℕ) (r : ChatResponse) (checked stored : Time)
    → IsValid c
    → IsValid (put c key r checked stored)
unfolding put
put-IsValid c key r checked stored v =
    elim (Bool-cases (is_recent (lookup key c.entries) checked c.dedup_window)) [
      | inl recent ↦ rw recent v
      | inr stale ↦
          let (agrees, space) = evict-Agrees c.max_entries c.order c.entries v.agrees in
          let (order, entries) = evict c.max_entries c.order c.entries in
          let e : CacheEntry = record { response = r; inserted = stored } in
          rw stale (record {
            agrees = insert-Agrees key e order entries agrees;
            bounded = ground (
              arith,
              length-insert key e entries,
              room_for_one c.max_entries (length entries) space,
            );
          })
    ]
