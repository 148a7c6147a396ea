-- ===== src/Quality/Laws.antt =====
-- What each reason of `check_degraded` means.
pub mod Loops
use solvela_go.Base.{
  Bytes, ℕ, ◌≤◌, ◌<◌, ◌≡◌, refl, ◌↔◌, ◌⊎◌, inl, inr, Bool, false, Option, none, some, List, [], ◌∷◌,
  length, drop, contains, ltb, leb, nat_eq, bytes_eq, if◌then◌else◌, codes, Bool-cases, All, ◌≢◌,
}
use solvela_go.Errors.{
  DegradedReason, empty_content, known_error_phrase, repetitive_loop, truncated_mid_word,
}
use solvela_go.Strings.{trim_right, fields, after_last_any}
use solvela_go.Strings.Laws.{Occurs}
use solvela_go.Quality.{closers, last_byte}
use Loops.{occurrences, trigrams}

-- One of the known phrases occurs in the text in lower case.
abbrev pub HasPhrase : Bytes → List Bytes → Type 0
HasPhrase s [] = ⊥
HasPhrase s (p ∷ ps) = Occurs p s ⊎ HasPhrase s ps

-- At least fifteen words, and three of them in a row that stand in the text five times.
abbrev pub IsRepetitive : Bytes → Type 0
IsRepetitive content =
    (15 ≤ length (fields content)) × ((t : Bytes) × (5 ≤ occurrences t (trigrams (fields content))))

abbrev ladder : Bool → Bool → Bool → Bool → Option DegradedReason
ladder blank phrase repeats cut =
    if blank
    then some empty_content
    else if phrase
    then some known_error_phrase
    else if repeats
    then some repetitive_loop
    else if cut
    then some truncated_mid_word
    else none

-- Which rung of the ladder is taken, in terms of what the tests decide.
module _ (B P R C : Type 0) where
  abbrev pub Rungs : Option DegradedReason → Type 0
  Rungs r =
      ((r ≡ some empty_content) ↔ B)
      × ((r ≡ some known_error_phrase) ↔ (¬ B × P))
      × ((r ≡ some repetitive_loop) ↔ (¬ B × ¬ P × R))
      × ((r ≡ some truncated_mid_word) ↔ (¬ B × ¬ P × ¬ R × C))
      × ((r ≡ none) ↔ (¬ B × ¬ P × ¬ R × ¬ C))
