-- ===== src/Cache/Recency.antt =====
-- The cache against its specification: a list of keys and entries, least recently used first.
use solvela_go.Base.{
  ℕ, zero, suc, ◌≡◌, refl, sym, ◌∙◌, ap, true, false, ℤ, Option, none, some, List, [], ◌∷◌, ◌++◌,
  arith, contains, leb, leb→le, ◌≤◌, ◌+◌, ◌-◌, pos, negsuc, Bool, ◌==◌, nat_eq, if◌then◌else◌,
  length, drop, inl, inr, Bool-cases,
}
use solvela_go.Types.Chat.{ChatResponse}
use solvela_go.Clock.{Time, is_older, is_younger}
use solvela_go.Maps.{lookup, delete, insert, NodupKeys}
use solvela_go.Maps.Laws.{lookup-insert, lookup-delete}
use solvela_go.Cache.{
  CacheEntry, Entries, ResponseCache, remove_from_order, evict, is_full, is_recent, get, put,
}
use solvela_go.Cache.Order.{contains-remove}
use solvela_go.Cache.Invariant.{
  Agrees, IsValid, room, tail-Agrees, evict-Agrees, get-IsValid, put-IsValid,
}

-- Keys and entries in the order of use.
abbrev pub Recency : Type 0
Recency = List (ℕ × Option CacheEntry)

abbrev pub view_of : List ℕ → Entries → Recency
view_of [] entries = []
view_of (k ∷ order) entries = (k, lookup k entries) ∷ view_of order entries

abbrev pub view : ResponseCache → Recency
view c = view_of c.order c.entries

-- The specification's operations.
unfoldable pub forget : ℕ → Recency → Recency
forget key [] = []
forget key ((k, e) ∷ recency) = if k == key then recency else (k, e) ∷ forget key recency

-- How many entries go before one more fits into the room that there is.
abbrev pub excess : ℤ → ℕ → ℕ
excess max n = n + 1 - room max

view-delete_absent :
    (key : ℕ) (order : List ℕ) (entries : Entries)
    → NodupKeys entries
    → contains order key ≡ false
    → view_of order (delete key entries) ≡ view_of order entries
view-delete_absent key [] entries u h = refl
view-delete_absent key (k ∷ order) entries u h =
    ground (arith, view-delete_absent key order entries u, lookup-delete key k entries u)

view-insert_absent :
    (key : ℕ) (e : CacheEntry) (order : List ℕ) (entries : Entries)
    → contains order key ≡ false
    → view_of order (insert key e entries) ≡ view_of order entries
view-insert_absent key e [] entries h = refl
view-insert_absent key e (k ∷ order) entries h =
    ground (arith, view-insert_absent key e order entries, lookup-insert key k e entries)

view-remove :
    (key : ℕ) (order : List ℕ) (entries : Entries)
    → view_of (remove_from_order key order) entries ≡ forget key (view_of order entries)
unfolding remove_from_order forget
view-remove key [] entries = refl
view-remove key (k ∷ order) entries = ground (arith, view-remove key order entries)

view-push :
    (key : ℕ) (order : List ℕ) (entries : Entries)
    → view_of (order ++ key ∷ []) entries ≡ view_of order entries ++ (key, lookup key entries) ∷ []
view-push key [] entries = refl
view-push key (k ∷ order) entries = ap (◌∷◌ (k, lookup k entries)) (view-push key order entries)

-- A cache is full if one more entry does not fit, unless it is empty.
is_full-room :
    (max : ℤ) (n : ℕ) → is_full max (suc n) ≡ (if leb (room max) (suc n) then true else false)
unfolding is_full
is_full-room (pos zero) n = ground arith
is_full-room (pos (suc k)) n = ground arith
is_full-room (negsuc k) n = ground arith

leb-false : (m n : ℕ) → leb m n ≡ false → suc n ≤ m
leb-false m n h = ground arith

drop-excess :
    (max : ℤ) (n : ℕ) (e : ℕ × Option CacheEntry) (recency : Recency)
    → drop (excess max (suc n)) (e ∷ recency)
      ≡ (if leb (room max) (suc n) then drop (excess max n) recency else e ∷ recency)
unfolding drop
drop-excess max n e recency = elim (Bool-cases (leb (room max) (suc n))) [
  | inl over ↦
      let more : excess max (suc n) ≡ suc (excess max n) = omega (arith, leb→le _ _ over) in
      rw (more, over) refl
  | inr fits ↦
      let none_goes : excess max (suc n) ≡ 0 = omega (arith, leb-false _ _ fits) in
      rw (none_goes, fits) refl
]

drop-nil {ℓ} : {A : Type ℓ} (n : ℕ) → drop {A = A} n [] ≡ []
unfolding drop
drop-nil zero = refl
drop-nil (suc n) = refl

view-evict :
    (max : ℤ) (order : List ℕ) (entries : Entries)
    → Agrees order entries
    → view_of (evict max order entries).0 (evict max order entries).1
      ≡ drop (excess max (length entries)) (view_of order entries)
unfolding evict drop
view-evict max [] entries a =
    let none_left : length entries ≡ 0 = sym a.same_length in
    rw none_left (sym (drop-nil (1 - room max)))
view-evict max (oldest ∷ order) entries a =
    let rest = tail-Agrees oldest order entries a in
    let held : length entries ≡ suc (length order) = sym a.same_length in
    let left : length (delete oldest entries) ≡ length order = sym rest.same_length in
    let kept = view-delete_absent oldest order entries a.distinct_keys a.distinct_order.0 in
    let shorter =
      drop-excess max (length order) (oldest, lookup oldest entries) (view_of order entries) in
    let full = is_full-room max (length order) in
    elim (Bool-cases (leb (room max) (suc (length order)))) [
      | inl over ↦
          let full' : is_full max (length entries) ≡ true = rw held (full ∙ rw over refl) in
          rw (full', held)
            ((rw (left, kept) at (view-evict max order (delete oldest entries) rest))
              ∙ sym (shorter ∙ rw over refl))
      | inr fits ↦
          let full' : is_full max (length entries) ≡ false = rw held (full ∙ rw fits refl) in
          rw (full', held) (sym (shorter ∙ rw fits refl))
    ]

view-leave :
    (key : ℕ) (order : List ℕ) (entries : Entries)
    → Agrees order entries
    → view_of (remove_from_order key order) (delete key entries)
      ≡ forget key (view_of order entries)
view-leave key order entries a =
    view-delete_absent key (remove_from_order key order) entries a.distinct_keys
      (ground (arith, contains-remove key key order a.distinct_order))
    ∙ view-remove key order entries

view-enter :
    (key : ℕ) (e : CacheEntry) (order : List ℕ) (entries : Entries)
    → Agrees order entries
    → view_of (remove_from_order key order ++ key ∷ []) (insert key e entries)
      ≡ forget key (view_of order entries) ++ (key, some e) ∷ []
view-enter key e order entries a =
    let rest = remove_from_order key order in
    let absent : contains rest key ≡ false =
      ground (arith, contains-remove key key order a.distinct_order) in
    let here : lookup key (insert key e entries) ≡ some e =
      ground (arith, lookup-insert key key e entries) in
    rw
      (
        view-push key rest (insert key e entries),
        view-insert_absent key e rest entries absent,
        here,
      )
      (rw (view-remove key order entries))

length-view : (order : List ℕ) (entries : Entries) → length (view_of order entries) ≡ length order
length-view [] entries = refl
length-view (k ∷ order) entries = ap suc (length-view order entries)

-- What a read does to the list of entries in order of use, by what is stored under its key: an entry
-- that is too old leaves list and map, a hit moves to the end.
abbrev pub Reads : ResponseCache → ℕ → Time → Option CacheEntry → Type 0
Reads c key now none = get c key now ≡ (c, none)
Reads c key now (some e) =
    let (c', answer) = get c key now in
    if is_older now e.inserted c.ttl
    then (answer ≡ none) × (view c' ≡ forget key (view c)) × (lookup key c'.entries ≡ none)
    else (answer ≡ some e.response)
      × (view c' ≡ forget key (view c) ++ (key, some e) ∷ [])
      × (c'.entries ≡ c.entries)

get-Reads :
    (c : ResponseCache) (key : ℕ) (now : Time) (found : Option CacheEntry)
    → IsValid c
    → lookup key c.entries ≡ found
    → Reads c key now found
unfolding get
get-Reads c key now none v miss = rw (miss, get) refl
get-Reads c key now (some e) v hit = elim (Bool-cases (is_older now e.inserted c.ttl)) [
  | inl old ↦ rw (old) (
      rw (hit, get)
        (rw (old) (
          refl,
          view-leave key c.order c.entries v.agrees,
          (let gone = lookup-delete key key c.entries v.agrees.distinct_keys in
              ground (arith, gone)),
        )))
  | inr young ↦
      rw (young) (rw (hit, get) (rw (young) (refl, rw (view-push, view-remove, hit) refl, refl)))
]

-- A read of a valid cache that finds nothing under its key changes nothing and answers nothing. If
-- what it finds is older than the time to live it answers nothing, and the entry leaves the map
-- and the list of entries in order of use; otherwise it answers with the response that is stored, and
-- the entry becomes the most recent one. The cache stays valid.
pub view-get :
    (c : ResponseCache) (key : ℕ) (now : Time)
    → IsValid c
    → Reads c key now (lookup key c.entries) × IsValid (get c key now).0
view-get c key now v = (get-Reads c key now _ v refl, get-IsValid c key now v)

-- What a write does to the list: the least recently used entries go until there is room for one
-- more, and the new entry is the most recent one.
unfoldable pub after_put : ℕ → CacheEntry → ℤ → Recency → Recency
unfolding forget
after_put key e max recency =
    forget key (drop (excess max (length recency)) recency) ++ (key, some e) ∷ []

-- The entry that is stored was put less than the dedup window ago.
abbrev pub put_within : Option CacheEntry → Time → ℤ → Bool
put_within none now window = false
put_within (some e) now window = is_younger now e.inserted window

is_recent-put_within :
    (found : Option CacheEntry) (now : Time) (window : ℤ)
    → is_recent found now window ≡ put_within found now window
unfolding is_recent
is_recent-put_within none now window = refl
is_recent-put_within (some e) now window = refl

put_recent :
    (c : ResponseCache) (key : ℕ) (r : ChatResponse) (checked stored : Time)
    → is_recent (lookup key c.entries) checked c.dedup_window ≡ true
    → put c key r checked stored ≡ c
unfolding put
put_recent c key r checked stored recent = rw recent refl

put_stale :
    (c : ResponseCache) (key : ℕ) (r : ChatResponse) (checked stored : Time)
    → IsValid c
    → is_recent (lookup key c.entries) checked c.dedup_window ≡ false
    → view (put c key r checked stored)
      ≡ after_put key (record { response = r; inserted = stored }) c.max_entries (view c)
unfolding put after_put
put_stale c key r checked stored v stale =
    let e : CacheEntry = record { response = r; inserted = stored } in
    let (agrees, space) = evict-Agrees c.max_entries c.order c.entries v.agrees in
    let (order, entries) = evict c.max_entries c.order c.entries in
    rw stale (
      view-enter key e order entries agrees
      ∙ rw (view-evict c.max_entries c.order c.entries v.agrees, length-view c.order c.entries)
          (rw v.agrees.same_length))

-- A write to a valid cache less than the dedup window after the one that stored the entry of its key
-- changes nothing. Any other drops of the least recently used entries as many as exceed the room
-- that one more needs (the limit, or one if the limit is lower), and no others, and makes the new entry
-- the most recent one. The cache stays valid.
pub view-put :
    (c : ResponseCache) (key : ℕ) (r : ChatResponse) (checked stored : Time)
    → IsValid c
    → (if put_within (lookup key c.entries) checked c.dedup_window
        then put c key r checked stored ≡ c
        else view (put c key r checked stored)
          ≡ after_put key (record { response = r; inserted = stored }) c.max_entries (view c))
      × IsValid (put c key r checked stored)
view-put c key r checked stored v =
    let same = is_recent-put_within (lookup key c.entries) checked c.dedup_window in
    (
      elim (Bool-cases (put_within (lookup key c.entries) checked c.dedup_window)) [
        | inl within ↦ rw within (put_recent c key r checked stored (same ∙ within))
        | inr stale ↦ rw stale (put_stale c key r checked stored v (same ∙ stale))
      ],
      put-IsValid c key r checked stored v,
    )
