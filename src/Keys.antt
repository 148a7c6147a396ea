-- ===== src/Keys.antt =====
-- cache.go and session.go: the keys of the stores, made with a hash.
pub mod Laws
use solvela_go.Base.{
  Bytes, ℕ, ◌+◌, ◌-◌, ◌*◌, ◌/◌, ◌%◌, ◌^◌, zero, suc, List, [], ◌∷◌, ◌++◌, length, take, ltb,
  if◌then◌else◌,
}
use solvela_go.Types.Chat.{ChatMessage}
use solvela_go.Library.{Library}

-- `binary.BigEndian.Uint64`
unfoldable pub big_endian : ℕ → Bytes → ℕ
big_endian n [] = n
big_endian n (b ∷ s) = big_endian (n * 256 + b) s

-- `binary.BigEndian.PutUint64`, by the count of bytes that are left
unfoldable pub put_big_endian : ℕ → ℕ → Bytes
put_big_endian zero n = []
put_big_endian (suc k) n = n / 256 ^ k % 256 ∷ put_big_endian k n

-- What the loop over the messages writes.
unfoldable pub written : List ChatMessage → Bytes
written [] = []
written (m ∷ messages) = m.role ++ (m.content ++ written messages)

-- What is written of the first message.
unfoldable pub first_written : List ChatMessage → Bytes
first_written [] = []
first_written (m ∷ messages) = m.role ++ m.content

hex_digit : ℕ → ℕ
hex_digit n = if ltb n 10 then b'0' + n else b'a' + (n - 10)

-- `%x`
unfoldable pub hex : Bytes → Bytes
unfolding hex_digit
hex [] = []
hex (b ∷ s) = hex_digit (b / 16) ∷ hex_digit (b % 16) ∷ hex s

module _ (lib : Library) where
  -- `CacheKey`
  unfoldable pub cache_key : Bytes → List ChatMessage → ℕ
  unfolding written big_endian take
  cache_key model messages = big_endian 0 (take 8 (lib.sha256 (model ++ written messages)))

  -- `DeriveSessionID`
  unfoldable pub derive_session_id : List ChatMessage → Bytes
  unfolding first_written hex take
  derive_session_id messages = hex (take 16 (lib.sha256 (first_written messages)))

  -- `DeriveSessionIDWithSalt`
  unfoldable pub derive_session_id_with_salt : Bytes → List ChatMessage → Bytes
  unfolding first_written hex put_big_endian take
  derive_session_id_with_salt salt messages = hex (
      take 16 (lib.sha256 (salt ++ (put_big_endian 8 (length messages) ++ first_written messages))))
