-- ===== src/Quality/Laws/Loops.antt =====
-- The search for a trigram that occurs five times: the counts of the map against plain counting.
use solvela_go.Base.{
  Bytes, ℕ, ◌+◌, ◌≤◌, ◌<◌, ◌≡◌, ◌↔◌, inl, inr, true, List, [], ◌∷◌, arith, leb, ◌==◌, bytes_eq,
  if◌then◌else◌, Bool-cases, leb→le,
}
use solvela_go.Quality.{Counts, count_of, increment, trigram, loops}

-- How often a text is in a list.
abbrev pub occurrences : Bytes → List Bytes → ℕ
occurrences t [] = 0
occurrences t (u ∷ us) = (if u == t then 1 else 0) + occurrences t us

abbrev pub trigrams : List Bytes → List Bytes
trigrams (a ∷ b ∷ c ∷ words) = trigram a b c ∷ trigrams (b ∷ c ∷ words)
trigrams _ = []

count_of-increment :
    (t u : Bytes) (counts : Counts)
    → count_of u (increment t counts) ≡ (if t == u then 1 else 0) + count_of u counts
unfolding count_of increment
count_of-increment t u [] = ground arith
count_of-increment t u ((v, n) ∷ counts) = ground (arith, count_of-increment t u counts)

loops_sound :
    (words : List Bytes) (counts : Counts)
    → loops words counts ≡ true
    → (t : Bytes) × (5 ≤ count_of t counts + occurrences t (trigrams words))
unfolding loops
loops_sound [] counts h = cc
loops_sound (a ∷ []) counts h = cc
loops_sound (a ∷ b ∷ []) counts h = cc
loops_sound (a ∷ b ∷ c ∷ words) counts h =
    let tri = trigram a b c in
    let counts' = increment tri counts in
    elim (Bool-cases (leb 5 (count_of tri counts'))) [
      | inl hit ↦ (tri, ground (arith, count_of-increment tri tri counts, leb→le _ _ hit))
      | inr miss ↦
          let (t, many) = loops_sound (b ∷ c ∷ words) counts' (rw miss at h) in
          (t, omega (arith, count_of-increment tri t counts))
    ]

loops_complete :
    (words : List Bytes) (counts : Counts) (t : Bytes)
    → count_of t counts < 5
    → 5 ≤ count_of t counts + occurrences t (trigrams words)
    → loops words counts ≡ true
unfolding loops
loops_complete [] counts t few many = absurd (omega arith)
loops_complete (a ∷ []) counts t few many = absurd (omega arith)
loops_complete (a ∷ b ∷ []) counts t few many = absurd (omega arith)
loops_complete (a ∷ b ∷ c ∷ words) counts t few many =
    let tri = trigram a b c in
    let counts' = increment tri counts in
    elim (Bool-cases (leb 5 (count_of tri counts'))) [
      | inl hit ↦ rw hit
      | inr miss ↦ rw miss (
          loops_complete (b ∷ c ∷ words) counts' t (ground (arith, count_of-increment tri t counts))
            (omega (arith, count_of-increment tri t counts)))
    ]

-- The loop finds a trigram exactly if some text occurs five times among the trigrams.
pub loops_iff :
    (words : List Bytes)
    → (loops words [] ≡ true) ↔ ((t : Bytes) × (5 ≤ occurrences t (trigrams words)))
unfolding count_of
loops_iff words = (
  λ h. let (t, many) = loops_sound words [] h in (t, omega arith),
  λ (t, many). loops_complete words [] t (omega arith) (omega arith),
)
