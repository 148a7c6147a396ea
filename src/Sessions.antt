-- ===== src/Sessions.antt =====
-- session.go: the session store. The map is an association list with one entry to an id; each
-- operation takes the readings of the clock that it makes. The mutex makes an operation one step.
pub mod Strikes
pub mod Store
use solvela_go.Base.{
  Bytes, ℕ, ◌+◌, ℤ, Bool, true, false, ◌||◌, Option, none, some, List, [], ◌∷◌, ◌++◌, leb, ◌==◌,
  nat_eq, bytes_eq, if◌then◌else◌,
}
use solvela_go.Maps.{Dict, lookup, insert}
use solvela_go.Clock.{Time, is_older}

pub record SessionInfo : Type 0 where
  pub model : Bytes
  pub escalated : Bool

pub record SessionEntry : Type 0 where
  pub model : Bytes
  pub created : Time
  pub recent_hashes : List ℕ
  pub escalated : Bool

abbrev pub Sessions : Type 0
Sessions = Dict Bytes SessionEntry

pub record SessionStore : Type 0 where
  pub sessions : Sessions
  pub ttl : ℤ

unfoldable pub new_session_store : ℤ → SessionStore
new_session_store ttl = record { sessions = []; ttl = ttl }

fresh_entry : Bytes → Time → SessionEntry
fresh_entry model created = record {
  model = model;
  created = created;
  recent_hashes = [];
  escalated = false;
}

-- The entry is there and has not passed its time to live.
unfoldable pub live : Option SessionEntry → Time → ℤ → Option SessionEntry
live none now ttl = none
live (some e) now ttl = if is_older now e.created ttl then none else some e

-- `GetOrCreate`; `now` is read by the test, `created` when a session is made.
unfoldable pub get_or_create :
    SessionStore → Bytes → Bytes → Time → Time → SessionStore × SessionInfo
unfolding lookup insert is_older fresh_entry live
get_or_create s id default_model now created = elim (live (lookup id s.sessions) now s.ttl) [
  | none ↦ (
    record s { sessions = insert id (fresh_entry default_model created) s.sessions },
    record { model = default_model; escalated = false },
  )
  | some e ↦ (s, record { model = e.model; escalated = e.escalated })
]

-- The loop that counts the hash.
unfoldable pub count_hash : ℕ → List ℕ → ℕ → ℕ
count_hash hash [] count = count
count_hash hash (h ∷ hashes) count = count_hash hash hashes (if h == hash then count + 1 else count)

-- What `RecordRequest` does to the entry.
unfoldable pub record_hash : ℕ → SessionEntry → SessionEntry
unfolding count_hash
record_hash hash e =
    let hashes = e.recent_hashes ++ hash ∷ [] in
    record e {
      recent_hashes = hashes;
      escalated = if leb 3 (count_hash hash hashes 0) then true else e.escalated;
    }

-- `RecordRequest`
unfoldable pub record_request : SessionStore → Bytes → ℕ → SessionStore
unfolding lookup insert record_hash
record_request s id hash = elim (lookup id s.sessions) [
  | none ↦ s
  | some e ↦ record s { sessions = insert id (record_hash hash e) s.sessions }
]

-- The loop of `CleanupExpired`, in the order in which it meets the sessions; `now` is the clock as
-- it stands at each.
unfoldable pub drop_expired : ℤ → (Bytes → Time) → Sessions → Sessions
drop_expired ttl now [] = []
drop_expired ttl now ((i, e) ∷ sessions) =
    let rest = drop_expired ttl now sessions in
    if is_older (now i) e.created ttl then rest else (i, e) ∷ rest

-- `CleanupExpired`
unfoldable pub cleanup_expired : SessionStore → (Bytes → Time) → SessionStore
unfolding drop_expired is_older
cleanup_expired s now = record s { sessions = drop_expired s.ttl now s.sessions }
