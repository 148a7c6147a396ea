-- ===== src/Quality.antt =====
-- quality.go: `CheckDegraded`. The empty reason of the source is `none`.
pub mod Laws
pub mod Truncation
use solvela_go.Base.{Bytes, ℕ, ◌+◌, Bool, true, false, ◌||◌, ◌&&◌, not, Option, none, some, List}
use solvela_go.Base.{[], ◌∷◌, ◌++◌, any, length, drop, ltb, leb, ◌==◌, nat_eq, bytes_eq, contains}
use solvela_go.Base.{if◌then◌else◌, codes}
use solvela_go.Errors.{DegradedReason, empty_content, known_error_phrase, repetitive_loop}
use solvela_go.Errors.{truncated_mid_word}
use solvela_go.Strings.{trim_space, trim_right, to_lower, contains_text, fields, after_last_any}

abbrev pub known_error_phrases : List Bytes
known_error_phrases = codes "i cannot" ∷ codes "as an ai" ∷ codes "i'm sorry, but i" ∷ []

-- `map[string]int`: the value of a missing key is 0.
abbrev pub Counts : Type 0
Counts = List (Bytes × ℕ)

unfoldable pub count_of : Bytes → Counts → ℕ
count_of t [] = 0
count_of t ((u, n) ∷ counts) = if u == t then n else count_of t counts

-- `counts[t]++`
unfoldable pub increment : Bytes → Counts → Counts
increment t [] = (t, 1) ∷ []
increment t ((u, n) ∷ counts) = if u == t then (u, n + 1) ∷ counts else (u, n) ∷ increment t counts

abbrev pub trigram : Bytes → Bytes → Bytes → Bytes
trigram a b c = a ++ b' ' ∷ (b ++ b' ' ∷ c)

-- The loop over the trigrams of the words, from `i` on.
unfoldable pub loops : List Bytes → Counts → Bool
loops (a ∷ b ∷ c ∷ words) counts =
    let counts' = increment (trigram a b c) counts in
    let rest = loops (b ∷ c ∷ words) counts' in
    if leb 5 (count_of (trigram a b c) counts') then true else rest
loops _ counts = false

unfoldable pub is_repetitive : Bytes → Bool
unfolding loops count_of increment
is_repetitive content = let words = fields content in leb 15 (length words) && loops words []

abbrev pub closers : Bytes
closers = codes ".!?\"'`)]}"

-- The last byte, 0 if there is none.
unfoldable pub last_byte : Bytes → ℕ
last_byte [] = 0
last_byte (a ∷ []) = a
last_byte (a ∷ b ∷ s) = last_byte (b ∷ s)

unfoldable pub is_truncated : Bytes → Bool
unfolding last_byte
is_truncated content =
    let trimmed = trim_right content (codes " \t\r\n") in
    let last_token = drop (after_last_any trimmed (codes " \t\n")) trimmed in
    ltb 100 (length trimmed)
    && not (contains closers (last_byte trimmed))
    && leb 4 (length last_token)

unfoldable pub check_degraded : Bytes → Option DegradedReason
check_degraded content =
    if trim_space content == []
    then some empty_content
    else if any (contains_text (to_lower content)) known_error_phrases
    then some known_error_phrase
    else if is_repetitive content
    then some repetitive_loop
    else if is_truncated content
    then some truncated_mid_word
    else none
