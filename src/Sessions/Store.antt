-- ===== src/Sessions/Store.antt =====
-- What the store answers, and what each call leaves in it.
use solvela_go.Base.{
  Bytes, ℕ, ℤ, ◌≡◌, refl, sym, ap, ◌∙◌, false, Option, none, some, [], ◌∷◌, arith, ◌==◌, bytes_eq,
  if◌then◌else◌, inl, inr, Option-cases, Bool-cases,
}
use mathlib.Core.Option
use mathlib.Core.Path.{ap₂}
use solvela_go.Clock.{Time, is_older}
use solvela_go.Maps.{lookup, NodupKeys}
use solvela_go.Maps.Laws.{lookup-insert, insert-NodupKeys}
use solvela_go.Sessions.{
  SessionInfo, SessionEntry, Sessions, SessionStore, record_hash, record_request, get_or_create,
  live, fresh_entry, drop_expired, cleanup_expired,
}

-- A session of that model which has recorded nothing yet
abbrev pub unused : Bytes → Time → SessionEntry
unused model created = record {
  model = model;
  created = created;
  recent_hashes = [];
  escalated = false;
}

-- The session that a lookup settles: the stored one until its age exceeds the time to live.
unfoldable pub current : Option SessionEntry → Bytes → Time → Time → ℤ → SessionEntry
current none model now created ttl = unused model created
current (some e) model now created ttl =
    if is_older now e.created ttl then unused model created else e

abbrev pub info_of : SessionEntry → SessionInfo
info_of e = record { model = e.model; escalated = e.escalated }

-- The ids stay distinct.
pub get_or_create-NodupKeys :
    (s : SessionStore) (id model : Bytes) (now created : Time)
    → NodupKeys s.sessions
    → NodupKeys (get_or_create s id model now created).0.sessions
unfolding get_or_create
get_or_create-NodupKeys s id model now created u =
    elim (Option-cases (live (lookup id s.sessions) now s.ttl)) [
      | inl missing ↦ rw (missing, get_or_create) (insert-NodupKeys id _ s.sessions u)
      | inr (e, found) ↦ rw (found, get_or_create) u
    ]

pub record_request-NodupKeys :
    (s : SessionStore) (id : Bytes) (hash : ℕ)
    → NodupKeys s.sessions
    → NodupKeys (record_request s id hash).sessions
unfolding record_request
record_request-NodupKeys s id hash u = elim (Option-cases (lookup id s.sessions)) [
  | inl missing ↦ rw (missing, record_request) u
  | inr (e, found) ↦ rw (found, record_request) (insert-NodupKeys id _ s.sessions u)
]

-- A lookup answers with the stored session if there is one whose age does not exceed the time to live,
-- and otherwise with a new one of the default model that has recorded nothing and is not escalated;
-- that session is stored under the id, and every other is left as it was.
pub get_or_create_lem :
    (s : SessionStore) (id model : Bytes) (now created : Time)
    → let e = current (lookup id s.sessions) model now created s.ttl in
      ((get_or_create s id model now created).1 ≡ info_of e)
      × ((j : Bytes)
          → lookup j (get_or_create s id model now created).0.sessions
            ≡ (if id == j then some e else lookup j s.sessions))
unfolding get_or_create current live fresh_entry
get_or_create_lem s id model now created = elim (Option-cases (lookup id s.sessions)) [
  | inl missing ↦
      rw (missing, get_or_create, current)
        (refl, λ j. lookup-insert id j (unused model created) s.sessions)
  | inr (e, found) ↦ elim (Bool-cases (is_older now e.created s.ttl)) [
    | inl old ↦
        rw (found, get_or_create, current)
          (rw (old) (refl, λ j. lookup-insert id j (unused model created) s.sessions))
    | inr young ↦ rw (found, get_or_create, current) (rw (young) (refl, λ j. ground (arith, found)))
  ]
]

pub if_same {ℓ} : {A : Type ℓ} (id : Bytes) (x y : A) → (if id == id then x else y) ≡ x
if_same id x y = ground arith

pub ttl-get_or_create :
    (s : SessionStore) (id model : Bytes) (now created : Time)
    → (get_or_create s id model now created).0.ttl ≡ s.ttl
unfolding get_or_create
ttl-get_or_create s id model now created = ground arith

pub current_fresh :
    (e : SessionEntry) (model : Bytes) (now created : Time) (ttl : ℤ)
    → is_older now e.created ttl ≡ false
    → current (some e) model now created ttl ≡ e
unfolding current
current_fresh e model now created ttl fresh = rw (fresh, current) refl

-- A lookup that finds a session which is not too old answers with its model.
pub get_or_create-found :
    (s : SessionStore) (id model : Bytes) (now created : Time) (e : SessionEntry)
    → lookup id s.sessions ≡ some e
    → is_older now e.created s.ttl ≡ false
    → (get_or_create s id model now created).1.model ≡ e.model
get_or_create-found s id model now created e found young =
    let (info, after) = get_or_create_lem s id model now created in
    ap (λ i. i.model) info
    ∙ rw (found) (ap (λ e. e.model) (current_fresh e model now created s.ttl young))

-- A second lookup before the session is too old gives the same answer, whatever model it asks for.
pub get_or_create_again :
    (s : SessionStore) (id model model' : Bytes) (now created now' created' : Time)
    → is_older now' (current (lookup id s.sessions) model now created s.ttl).created s.ttl ≡ false
    → (get_or_create (get_or_create s id model now created).0 id model' now' created').1
      ≡ (get_or_create s id model now created).1
get_or_create_again s id model model' now created now' created' fresh =
    let e = current (lookup id s.sessions) model now created s.ttl in
    let (answer, after) = get_or_create_lem s id model now created in
    let s' = (get_or_create s id model now created).0 in
    let held : lookup id s'.sessions ≡ some e = after id ∙ if_same id _ _ in
    let kept : s'.ttl ≡ s.ttl = ttl-get_or_create s id model now created in
    (get_or_create_lem s' id model' now' created').0
    ∙ (ap₂ (λ f ttl. info_of (current f model' now' created' ttl)) held kept
        ∙ (ap info_of (current_fresh e model' now' created' s.ttl fresh) ∙ sym answer))

-- Recording changes the session of the id, if there is one, and no other.
pub lookup-record_request :
    (s : SessionStore) (id j : Bytes) (hash : ℕ)
    → lookup j (record_request s id hash).sessions ≡ (
        if id == j
        then Option.map (record_hash hash) (lookup id s.sessions)
        else lookup j s.sessions)
unfolding record_request
lookup-record_request s id j hash = elim (Option-cases (lookup id s.sessions)) [
  | inl missing ↦ rw (missing, record_request) (ground arith)
  | inr (e, found) ↦ rw (found, record_request) (lookup-insert id j (record_hash hash e) s.sessions)
]

drop_expired-absent :
    (ttl : ℤ) (now : Bytes → Time) (m : Sessions) (id : Bytes)
    → lookup id m ≡ none
    → lookup id (drop_expired ttl now m) ≡ none
unfolding lookup drop_expired
drop_expired-absent ttl now [] id h = refl
drop_expired-absent ttl now ((i, e) ∷ m) id h = ground (arith, drop_expired-absent ttl now m id)

pub drop_expired-NodupKeys :
    (ttl : ℤ) (now : Bytes → Time) (m : Sessions) → NodupKeys m → NodupKeys (drop_expired ttl now m)
unfolding drop_expired
drop_expired-NodupKeys ttl now [] u = tt
drop_expired-NodupKeys ttl now ((i, e) ∷ m) (fresh, u) =
    ground (arith, drop_expired-NodupKeys ttl now m u, drop_expired-absent ttl now m i fresh)

pub lookup-drop_expired :
    (ttl : ℤ) (now : Bytes → Time) (m : Sessions) (id : Bytes)
    → NodupKeys m
    → lookup id (drop_expired ttl now m) ≡ live (lookup id m) (now id) ttl
unfolding lookup drop_expired live
lookup-drop_expired ttl now [] id u = refl
lookup-drop_expired ttl now ((i, e) ∷ m) id (fresh, u) =
    ground (arith, lookup-drop_expired ttl now m id u)

current-live :
    (found : Option SessionEntry) (model : Bytes) (now created : Time) (ttl : ℤ)
    → current (live found now ttl) model now created ttl ≡ current found model now created ttl
unfolding current live
current-live none model now created ttl = refl
current-live (some e) model now created ttl = ground arith

-- A cleanup is invisible: a lookup at the same time answers as it would have without it.
pub get_or_create-cleanup :
    (s : SessionStore) (clock : Bytes → Time) (id model : Bytes) (created : Time)
    → NodupKeys s.sessions
    → (get_or_create (cleanup_expired s clock) id model (clock id) created).1
      ≡ (get_or_create s id model (clock id) created).1
unfolding cleanup_expired
get_or_create-cleanup s clock id model created u =
    (get_or_create_lem (cleanup_expired s clock) id model (clock id) created).0
    ∙ (ap (λ f. info_of (current f model (clock id) created s.ttl))
          (lookup-drop_expired s.ttl clock s.sessions id u)
        ∙ (ap info_of (current-live (lookup id s.sessions) model (clock id) created s.ttl)
            ∙ sym (get_or_create_lem s id model (clock id) created).0))
