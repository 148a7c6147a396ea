-- ===== src/Keys/Laws.antt =====
-- What the keys of the stores tell apart.
use solvela_go.Base.{Bytes, ◌≡◌, ap, sym, ◌∙◌, List, ◌∷◌, ◌++◌, take}
use mathlib.Core.List.{append_assoc}
use solvela_go.Types.Chat.{ChatMessage}
use solvela_go.Library.{Library}
use solvela_go.Keys.{written, big_endian, cache_key}

-- The second message written out at the end of the first one's text.
abbrev pub merge : ChatMessage → ChatMessage → ChatMessage
merge a b = record a { content = a.content ++ (b.role ++ b.content) }

-- Whatever the hash is, a conversation of two messages and more has the key of the conversation in
-- which the second message, role and text, stands at the end of the first one's text.
pub cache_key-merge :
    (lib : Library) (model : Bytes) (a b : ChatMessage) (messages : List ChatMessage)
    → cache_key lib model (a ∷ b ∷ messages) ≡ cache_key lib model (merge a b ∷ messages)
unfolding cache_key written
cache_key-merge lib model a b messages =
    ap (λ t. big_endian 0 (take 8 (lib.sha256 (model ++ (a.role ++ t)))))
      (sym (
        append_assoc a.content (b.role ++ b.content) (written messages)
        ∙ ap (λ t. a.content ++ t) (append_assoc b.role b.content (written messages))))
