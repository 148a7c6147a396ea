-- ===== src/Quality/Truncation.antt =====
-- The texts that the last test of quality.go is after, in characters.
use solvela_go.Base.{
  Bytes, ℕ, suc, ◌≤◌, ◌<◌, ◌≡◌, refl, sym, ap, ◌∙◌, ◌↔◌, true, false, ◌&&◌, [], ◌∷◌, ◌++◌, All,
  length, drop, ltb, leb, contains, nat_eq, if◌then◌else◌, codes, arith,
}
use mathlib.Core.Path.{subst}
use solvela_go.Strings.{trim_right, after_last_any}
use solvela_go.Strings.Laws.{drop-after_last_any}
use solvela_go.Strings.Trim.{
  Apart, trim_right-split, trim_right-Ends, trim_right-append, take-drop, take-after_last_any,
  drop-append,
}
use solvela_go.Quality.{is_truncated, closers, last_byte}

-- The number of characters of a text in UTF-8: of its bytes that do not continue one.
abbrev pub chars : Bytes → ℕ
chars [] = 0
chars (c ∷ s) = if leb 128 c && ltb c 192 then chars s else suc (chars s)

abbrev pub IsAscii : Bytes → Type 0
IsAscii s = All (λ c. c < 128) s

chars-length : (s : Bytes) → IsAscii s → chars s ≡ length s
chars-length [] h = omega arith
chars-length (c ∷ s) (small, h) = ground (arith, chars-length s h)

abbrev white : Bytes
white = codes " \t\r\n"

abbrev blanks : Bytes
blanks = codes " \t\n"

-- Without the white space behind it, the text is longer than a hundred characters, does not end in a
-- closing character, and its last token has four characters or more.
abbrev pub IsTruncated : Bytes → Type 0
IsTruncated content =
    (stem : Bytes) × (last : ℕ) × (trail : Bytes) × (body : Bytes) × (token : Bytes) × (content
      ≡ (stem ++ last ∷ []) ++ trail)
    × (contains (codes " \t\r\n") last ≡ false)
    × All (λ c. contains (codes " \t\r\n") c ≡ true) trail
    × ((stem ++ last ∷ []) ≡ body ++ token)
    × Apart (codes " \t\n") body
    × All (λ c. contains (codes " \t\n") c ≡ false) token
    × (100 < chars (stem ++ last ∷ []))
    × (contains closers last ≡ false)
    × (4 ≤ chars token)

last_byte-append : (s : Bytes) (c : ℕ) → last_byte (s ++ c ∷ []) ≡ c
unfolding last_byte
last_byte-append [] c = refl
last_byte-append (a ∷ []) c = refl
last_byte-append (a ∷ b ∷ s) c = last_byte-append (b ∷ s) c

IsAscii-left : (s t : Bytes) → IsAscii (s ++ t) → IsAscii s
IsAscii-left [] t h = tt
IsAscii-left (c ∷ s) t (small, h) = (small, IsAscii-left s t h)

IsAscii-right : (s t : Bytes) → IsAscii (s ++ t) → IsAscii t
IsAscii-right [] t h = h
IsAscii-right (c ∷ s) t (small, h) = IsAscii-right s t h

-- What the test of the source says of what is left of the text
abbrev Passes : Bytes → Type 0
Passes t =
    (100 < length t)
    × (contains closers (last_byte t) ≡ false)
    × (4 ≤ length (drop (after_last_any t blanks) t))

is_truncated-Passes :
    (content : Bytes) → (is_truncated content ≡ true) ↔ Passes (trim_right content white)
unfolding is_truncated
is_truncated-Passes content = ground arith

Passes-IsTruncated :
    (content : Bytes) → IsAscii content → Passes (trim_right content white) → IsTruncated content
Passes-IsTruncated content ascii (long, open_ended, wide) =
    let t = trim_right content white in
    let k = after_last_any t blanks in
    let (trail, text, cut) = trim_right-split content white in
    let (stem, last, ends, kept) = trim_right-Ends content white (omega arith) in
    let plain : IsAscii t = IsAscii-left t trail (subst IsAscii text ascii) in
    let split = take-drop k t in
    let word : IsAscii (drop k t) = IsAscii-right _ (drop k t) (subst IsAscii split plain) in
    (
      stem,
      last,
      trail,
      _,
      drop k t,
      text ∙ ap (λ t. t ++ trail) ends,
      kept,
      cut,
      sym ends ∙ split,
      take-after_last_any t blanks,
      drop-after_last_any t blanks,
      subst (λ t. 100 < chars t) ends (subst (λ n. 100 < n) (sym (chars-length t plain)) long),
      subst (λ c. contains closers c ≡ false) (ap last_byte ends ∙ last_byte-append stem last)
          open_ended,
      subst (λ n. 4 ≤ n) (sym (chars-length (drop k t) word)) wide,
    )

IsTruncated-Passes :
    (content : Bytes) → IsAscii content → IsTruncated content → Passes (trim_right content white)
IsTruncated-Passes content ascii
      (
        stem, last, trail, body, token, text, kept, cut, words, apart, whole, long, open_ended,
        wide,
      ) =
    let t = stem ++ last ∷ [] in
    let plain : IsAscii t = IsAscii-left t trail (subst IsAscii text ascii) in
    let word : IsAscii token = IsAscii-right body token (subst IsAscii words plain) in
    let found : trim_right content white ≡ t =
      ap (λ s. trim_right s white) text ∙ trim_right-append stem last trail white kept cut in
    let last_token : drop (after_last_any t blanks) t ≡ token =
      ap (λ t. drop (after_last_any t blanks) t) words
      ∙ drop-append body token blanks apart whole in
    subst Passes (sym found) (
      subst (λ n. 100 < n) (chars-length t plain) long,
      subst (λ c. contains closers c ≡ false) (sym (last_byte-append stem last)) open_ended,
      subst (λ s. 4 ≤ length s) (sym last_token)
          (subst (λ n. 4 ≤ n) (chars-length token word) wide),
    )

-- For ASCII the test finds exactly these.
pub is_truncated_iff :
    (content : Bytes) → IsAscii content → (is_truncated content ≡ true) ↔ IsTruncated content
is_truncated_iff content ascii =
    let (sound, complete) = is_truncated-Passes content in
    (
      λ h. Passes-IsTruncated content ascii (sound h),
      λ h. complete (IsTruncated-Passes content ascii h),
    )
