-- ===== src/Sessions/Strikes.antt =====
-- The three-strike rule: an entry is escalated exactly if some hash was recorded three times.
use solvela_go.Base.{
  Bytes, ℕ, ℤ, ◌+◌, ◌≤◌, ◌≡◌, refl, sym, ap, ◌∙◌, ◌↔◌, true, false, Option, none, some, List, [],
  ◌∷◌, ◌++◌, arith, leb, leb→le, ◌==◌, nat_eq, bytes_eq, if◌then◌else◌, inl, inr, Bool-cases,
}
use mathlib.Core.Option
use mathlib.Core.Path.{subst}
use solvela_go.Clock.{Time, is_older}
use solvela_go.Maps.{lookup, NodupKeys}
use solvela_go.Sessions.{
  SessionEntry, SessionStore, count_hash, record_hash, record_request, get_or_create, live,
  cleanup_expired, new_session_store,
}
use solvela_go.Sessions.Store.{
  unused, current, get_or_create_lem, lookup-record_request, lookup-drop_expired,
  get_or_create-NodupKeys, record_request-NodupKeys, drop_expired-NodupKeys, ttl-get_or_create,
}

abbrev pub occurrences : ℕ → List ℕ → ℕ
occurrences h [] = 0
occurrences h (x ∷ xs) = (if x == h then 1 else 0) + occurrences h xs

count_hash-occurrences : (h : ℕ) (xs : List ℕ) (n : ℕ) → count_hash h xs n ≡ n + occurrences h xs
unfolding count_hash
count_hash-occurrences h [] n = omega arith
count_hash-occurrences h (x ∷ xs) n =
    ground (arith, count_hash-occurrences h xs n, count_hash-occurrences h xs (n + 1))

occurrences-push :
    (h x : ℕ) (xs : List ℕ)
    → occurrences h (xs ++ x ∷ []) ≡ occurrences h xs + (if x == h then 1 else 0)
occurrences-push h x [] = ground arith
occurrences-push h x (y ∷ xs) = omega (arith, occurrences-push h x xs)

-- An entry is escalated exactly if some hash was recorded at least three times.
abbrev pub IsFaithful : SessionEntry → Type 0
IsFaithful e = (e.escalated ≡ true) ↔ ((h : ℕ) × (3 ≤ occurrences h e.recent_hashes))

record_hash-IsFaithful :
    (hash : ℕ) (e : SessionEntry) → IsFaithful e → IsFaithful (record_hash hash e)
unfolding record_hash
record_hash-IsFaithful hash e f =
    let xs = e.recent_hashes in
    let hashes = xs ++ hash ∷ [] in
    elim (Bool-cases (leb 3 (count_hash hash hashes 0))) [
      | inl third ↦ rw third (
        λ _. (hash, omega (arith, count_hash-occurrences hash hashes 0, leb→le _ _ third)),
        λ _. refl,
      )
      | inr fewer ↦ rw fewer (
        λ old. let (h, often) = f.0 old in (h, omega (arith, occurrences-push h hash xs)),
        λ (h, often). f.1 (
          h,
          ground (arith, occurrences-push h hash xs, count_hash-occurrences hash hashes 0, fewer),
        ),
      )
    ]

-- A call on the store, with what the clock shows during it.
pub data Call : Type 0 where
  get_or_create_call : Bytes → Bytes → Time → Time → Call
  record_call : Bytes → ℕ → Call
  cleanup_call : (Bytes → Time) → Call

unfoldable pub serve : Call → SessionStore → SessionStore
unfolding get_or_create record_request cleanup_expired
serve (get_or_create_call id model now created) s = (get_or_create s id model now created).0
serve (record_call id hash) s = record_request s id hash
serve (cleanup_call now) s = cleanup_expired s now

unfoldable pub run : List Call → SessionStore → SessionStore
unfolding serve
run [] s = s
run (call ∷ calls) s = run calls (serve call s)

-- What the calls say of one session: the model that it was made for, when, and what was recorded for
-- it since.
pub record Tally : Type 0 where
  pub model : Bytes
  pub since : Time
  pub hashes : List ℕ

abbrev begun : Bytes → Time → Tally
begun model created = record { model = model; since = created; hashes = [] }

-- What one call makes of it. A lookup makes a session if there is none of its id or if the age of
-- that one exceeds the time to live; a cleanup ends it in that case.
unfoldable pub tally : Bytes → ℤ → Call → Option Tally → Option Tally
tally id ttl (get_or_create_call id' model now created) none =
    if id' == id then some (begun model created) else none
tally id ttl (get_or_create_call id' model now created) (some t) =
    if id' == id then some (if is_older now t.since ttl then begun model created else t) else some t
tally id ttl (record_call id' hash) none = none
tally id ttl (record_call id' hash) (some t) =
    if id' == id then some (record t { hashes = t.hashes ++ hash ∷ [] }) else some t
tally id ttl (cleanup_call now) none = none
tally id ttl (cleanup_call now) (some t) = if is_older (now id) t.since ttl then none else some t

unfoldable pub tallied : Bytes → ℤ → List Call → Option Tally → Option Tally
unfolding tally
tallied id ttl [] t = t
tallied id ttl (call ∷ calls) t = tallied id ttl calls (tally id ttl call t)

-- The entry of the session holds what the calls say, and is escalated exactly if some hash was
-- recorded at least three times.
pub record IsCounted (e : SessionEntry) (t : Tally) : Type 0 where
  pub model : e.model ≡ t.model
  pub created : e.created ≡ t.since
  pub hashes : e.recent_hashes ≡ t.hashes
  pub escalated : (e.escalated ≡ true) ↔ ((h : ℕ) × (3 ≤ occurrences h t.hashes))

abbrev pub Matches : Option SessionEntry → Option Tally → Type 0
Matches none none = Unit
Matches none (some t) = ⊥
Matches (some e) none = ⊥
Matches (some e) (some t) = IsCounted e t

unused-IsCounted :
    (model : Bytes) (created : Time) → IsCounted (unused model created) (begun model created)
unused-IsCounted model created = record {
  model = refl;
  created = refl;
  hashes = refl;
  escalated = (λ h. cc, λ (h, often). absurd (omega arith));
}

-- The call looks the session up.
current-Matches :
    (found : Option SessionEntry) (t : Option Tally) (id model : Bytes) (now created : Time)
    (ttl : ℤ)
    → Matches found t
    → Matches
        (some (current found model now created ttl))
        (tally id ttl (get_or_create_call id model now created) t)
unfolding current tally
current-Matches none none id model now created ttl h =
    let same : (id == id) ≡ true = ground arith in rw same (unused-IsCounted model created)
current-Matches none (some t) id model now created ttl h = absurd h
current-Matches (some e) none id model now created ttl h = absurd h
current-Matches (some e) (some t) id model now created ttl h =
    let same : (id == id) ≡ true = ground arith in
    elim (Bool-cases (is_older now t.since ttl)) [
      | inl old ↦
          rw (same, old, ap (λ at. is_older now at ttl) h.created ∙ old)
            (unused-IsCounted model created)
      | inr young ↦ rw (same, young, ap (λ at. is_older now at ttl) h.created ∙ young) h
    ]

record_hash-IsCounted :
    (hash : ℕ) (e : SessionEntry) (t : Tally)
    → IsCounted e t
    → IsCounted (record_hash hash e) (record t { hashes = t.hashes ++ hash ∷ [] })
unfolding record_hash
record_hash-IsCounted hash e t h =
    let pushed : (e.recent_hashes ++ hash ∷ []) ≡ (t.hashes ++ hash ∷ []) =
      ap (λ xs. xs ++ hash ∷ []) h.hashes in
    let old : IsFaithful e =
      subst (λ xs. (e.escalated ≡ true) ↔ ((h : ℕ) × (3 ≤ occurrences h xs))) (sym h.hashes)
        h.escalated in
    record {
      model = h.model;
      created = h.created;
      hashes = pushed;
      escalated =
          subst (λ xs. ((record_hash hash e).escalated ≡ true) ↔ ((h : ℕ) × (3 ≤ occurrences h xs)))
            pushed (record_hash-IsFaithful hash e old);
    }

map-Matches :
    (hash : ℕ) (found : Option SessionEntry) (id : Bytes) (ttl : ℤ) (t : Option Tally)
    → Matches found t
    → Matches (Option.map (record_hash hash) found) (tally id ttl (record_call id hash) t)
unfolding tally
map-Matches hash none id ttl none h = tt
map-Matches hash none id ttl (some t) h = absurd h
map-Matches hash (some e) id ttl none h = absurd h
map-Matches hash (some e) id ttl (some t) h =
    let same : (id == id) ≡ true = ground arith in rw same (record_hash-IsCounted hash e t h)

live-Matches :
    (found : Option SessionEntry) (id : Bytes) (now : Bytes → Time) (ttl : ℤ) (t : Option Tally)
    → Matches found t
    → Matches (live found (now id) ttl) (tally id ttl (cleanup_call now) t)
unfolding tally live
live-Matches none id now ttl none h = tt
live-Matches none id now ttl (some t) h = absurd h
live-Matches (some e) id now ttl none h = absurd h
live-Matches (some e) id now ttl (some t) h = elim (Bool-cases (is_older (now id) t.since ttl)) [
  | inl old ↦ rw (old, ap (λ at. is_older (now id) at ttl) h.created ∙ old) tt
  | inr young ↦ rw (young, ap (λ at. is_older (now id) at ttl) h.created ∙ young) h
]

-- A call for another id leaves the count as it is.
tally-other :
    (id id' : Bytes) (ttl : ℤ) (t : Option Tally)
    → (id' == id) ≡ false
    → ((model : Bytes) (now created : Time)
        → tally id ttl (get_or_create_call id' model now created) t ≡ t)
      × ((hash : ℕ) → tally id ttl (record_call id' hash) t ≡ t)
unfolding tally
tally-other id id' ttl none other = (λ model now created. rw other refl, λ hash. refl)
tally-other id id' ttl (some t) other = (λ model now created. rw other refl, λ hash. rw other refl)

serve-NodupKeys :
    (call : Call) (s : SessionStore) → NodupKeys s.sessions → NodupKeys (serve call s).sessions
unfolding serve cleanup_expired
serve-NodupKeys (get_or_create_call id model now created) s u =
    get_or_create-NodupKeys s id model now created u
serve-NodupKeys (record_call id hash) s u = record_request-NodupKeys s id hash u
serve-NodupKeys (cleanup_call now) s u = drop_expired-NodupKeys s.ttl now s.sessions u

ttl-serve : (call : Call) (s : SessionStore) → (serve call s).ttl ≡ s.ttl
unfolding serve cleanup_expired record_request
ttl-serve (get_or_create_call id model now created) s = ttl-get_or_create s id model now created
ttl-serve (record_call id hash) s = ground arith
ttl-serve (cleanup_call now) s = refl

serve-Matches :
    (call : Call) (s : SessionStore) (id : Bytes) (t : Option Tally)
    → NodupKeys s.sessions
    → Matches (lookup id s.sessions) t
    → Matches (lookup id (serve call s).sessions) (tally id s.ttl call t)
unfolding serve cleanup_expired
serve-Matches (get_or_create_call id' model now created) s id t u h =
    let stored = (get_or_create_lem s id' model now created).1 id in
    elim (Bool-cases (id' == id)) [
      | inl same ↦
          let one : id' ≡ id = ground (arith, same) in
          rw stored (
            rw same (
              subst
                (λ i.
                  Matches (some (current (lookup i s.sessions) model now created s.ttl))
                    (tally id s.ttl (get_or_create_call i model now created) t))
                (sym one) (current-Matches (lookup id s.sessions) t id model now created s.ttl h)))
      | inr other ↦ rw (stored, (tally-other id id' s.ttl t other).0 model now created) (rw other h)
    ]
serve-Matches (record_call id' hash) s id t u h =
    let stored = lookup-record_request s id' id hash in
    elim (Bool-cases (id' == id)) [
      | inl same ↦
          let one : id' ≡ id = ground (arith, same) in
          rw stored (
            rw same (
              subst
                (λ i.
                  Matches (Option.map (record_hash hash) (lookup i s.sessions))
                    (tally id s.ttl (record_call i hash) t))
                (sym one) (map-Matches hash (lookup id s.sessions) id s.ttl t h)))
      | inr other ↦ rw (stored, (tally-other id id' s.ttl t other).1 hash) (rw other h)
    ]
serve-Matches (cleanup_call now) s id t u h =
    subst (λ f. Matches f (tally id s.ttl (cleanup_call now) t))
      (sym (lookup-drop_expired s.ttl now s.sessions id u))
      (live-Matches (lookup id s.sessions) id now s.ttl t h)

run-Matches :
    (calls : List Call) (s : SessionStore) (id : Bytes) (t : Option Tally)
    → NodupKeys s.sessions
    → Matches (lookup id s.sessions) t
    → Matches (lookup id (run calls s).sessions) (tallied id s.ttl calls t)
unfolding run tallied
run-Matches [] s id t u h = h
run-Matches (call ∷ calls) s id t u h =
    subst
      (λ ttl.
        Matches (lookup id (run calls (serve call s)).sessions)
          (tallied id ttl calls (tally id s.ttl call t)))
      (ttl-serve call s)
      (run-Matches calls (serve call s) id (tally id s.ttl call t) (serve-NodupKeys call s u)
        (serve-Matches call s id t u h))

-- After any calls on a new store, a session is stored under an id exactly if the calls say that there
-- is one, with the model and the time that they say and with the hashes that they recorded for it
-- since it was made; and it is escalated exactly if some hash is among those at least three times.
pub escalated_iff_three_strikes :
    (ttl : ℤ) (calls : List Call) (id : Bytes)
    → Matches (lookup id (run calls (new_session_store ttl)).sessions) (tallied id ttl calls none)
unfolding new_session_store lookup
escalated_iff_three_strikes ttl calls id = run-Matches calls (new_session_store ttl) id none tt tt
