-- ===== src/Strings.antt =====
-- What the program uses of Go's `strings`, byte by byte. White space is that of `unicode.IsSpace`,
-- by the UTF-8 bytes of its runes. Each begins with a byte that continues no other rune, so that
-- every occurrence of the bytes is the rune, in valid text and in invalid text alike.
pub mod Laws
pub mod Trim
use solvela_go.Base.{Bytes, ℕ, zero, suc, ◌+◌, ◌-◌, Bool, true, false, ◌&&◌, ◌||◌, not, List}
use solvela_go.Base.{[], ◌∷◌, ◌++◌, map, reverse, ltb, leb, ◌==◌, nat_eq, if◌then◌else◌, contains}

-- The bytes of the white-space rune at the front of `a ∷ s`, 0 if there is none.
space_width_2 : ℕ → Bytes → ℕ
space_width_2 a [] = 0
space_width_2 a (b ∷ s) = if a == 0xC2 && (b == 0x85 || b == 0xA0) then 2 else 0

is_space_3 : ℕ → ℕ → ℕ → Bool
is_space_3 a b c =
    a == 0xE1 && b == 0x9A && c == 0x80
    || a == 0xE2 && b == 0x80 && (leb 0x80 c && leb c 0x8A || c == 0xA8 || c == 0xA9 || c == 0xAF)
    || a == 0xE2 && b == 0x81 && c == 0x9F
    || a == 0xE3 && b == 0x80 && c == 0x80

space_width_3 : ℕ → Bytes → ℕ
unfolding is_space_3
space_width_3 a (b ∷ c ∷ s) = if is_space_3 a b c then 3 else 0
space_width_3 a _ = 0

unfoldable pub is_ascii_space : ℕ → Bool
is_ascii_space a = a == 0x20 || leb 0x09 a && leb a 0x0D

unfoldable pub space_width : ℕ → Bytes → ℕ
unfolding is_ascii_space space_width_2 space_width_3
space_width a s =
    if is_ascii_space a
    then 1
    else let two = space_width_2 a s in if two == 0 then space_width_3 a s else two

-- Each byte with whether it belongs to a white-space rune; `k` bytes of such a rune are left.
unfoldable pub marked : ℕ → Bytes → List (ℕ × Bool)
marked k [] = []
marked k (a ∷ s) =
    let left = if k == 0 then space_width a s else k in (a, ltb 0 left) ∷ marked (left - 1) s

unfoldable pub drop_while {ℓ} : {A : Type ℓ} → (A → Bool) → List A → List A
drop_while p [] = []
drop_while p (x ∷ xs) = let rest = drop_while p xs in if p x then rest else x ∷ xs

abbrev pub drop_last_while {ℓ} : {A : Type ℓ} → (A → Bool) → List A → List A
drop_last_while p xs = reverse (drop_while p (reverse xs))

-- `strings.TrimSpace`
unfoldable pub trim_space : Bytes → Bytes
unfolding marked space_width drop_while
trim_space s = map (λ c. c.0) (drop_last_while (λ c. c.1) (drop_while (λ c. c.1) (marked 0 s)))

-- `strings.TrimRight`, for an ASCII cutset
unfoldable pub trim_right : Bytes → Bytes → Bytes
unfolding drop_while
trim_right s cutset = drop_last_while (λ c. contains cutset c) s

flush : Bytes → List Bytes → List Bytes
flush [] words = words
flush (c ∷ word) words = reverse (c ∷ word) ∷ words

-- The words of marked bytes, behind a word that is held in reverse.
unfoldable pub fields_from : Bytes → List (ℕ × Bool) → List Bytes
unfolding flush
fields_from word [] = flush word []
fields_from word ((c, true) ∷ s) = flush word (fields_from [] s)
fields_from word ((c, false) ∷ s) = fields_from (c ∷ word) s

-- `strings.Fields`
unfoldable pub fields : Bytes → List Bytes
unfolding fields_from marked space_width
fields s = fields_from [] (marked 0 s)

-- `strings.HasPrefix`
unfoldable pub has_prefix : Bytes → Bytes → Bool
has_prefix s [] = true
has_prefix [] (b ∷ t) = false
has_prefix (a ∷ s) (b ∷ t) = a == b && has_prefix s t

-- `strings.Contains`
unfoldable pub contains_text : Bytes → Bytes → Bool
unfolding has_prefix
contains_text [] t = has_prefix [] t
contains_text (a ∷ s) t = has_prefix (a ∷ s) t || contains_text s t

-- The lower case of a byte and the rest of its rune, and how many bytes of that rest it stands for:
-- U+0130 and U+212A are the two runes outside ASCII whose lower case is an ASCII letter.
unfoldable pub lower_rune : ℕ → Bytes → ℕ × ℕ
lower_rune a (b ∷ c ∷ s) =
    if a == 0xC4 && b == 0xB0
    then (b'i', 1)
    else if a == 0xE2 && b == 0x84 && c == 0xAA
    then (b'k', 2)
    else if leb b'A' a && leb a b'Z'
    then (a + 32, 0)
    else (a, 0)
lower_rune a (b ∷ []) =
    if a == 0xC4 && b == 0xB0
    then (b'i', 1)
    else if leb b'A' a && leb a b'Z'
    then (a + 32, 0)
    else (a, 0)
lower_rune a [] = if leb b'A' a && leb a b'Z' then (a + 32, 0) else (a, 0)

unfoldable pub lower_from : ℕ → Bytes → Bytes
unfolding lower_rune
lower_from k [] = []
lower_from (suc k) (a ∷ s) = lower_from k s
lower_from zero (a ∷ s) = let (c, k) = lower_rune a s in c ∷ lower_from k s

-- `strings.ToLower`, as far as a search for ASCII text can see: a rune whose lower case is not ASCII
-- keeps its bytes, none of which is ASCII either.
unfoldable pub to_lower : Bytes → Bytes
unfolding lower_from
to_lower s = lower_from 0 s

-- The position behind the last match, from the one found in the tail and the test of the head.
unfoldable pub after_head : ℕ → Bool → ℕ
after_head zero true = 1
after_head zero false = 0
after_head (suc k) hit = suc (suc k)

-- `strings.LastIndexAny(s, chars) + 1`, 0 if no byte is among the ASCII `chars`
unfoldable pub after_last_any : Bytes → Bytes → ℕ
unfolding after_head
after_last_any [] chars = 0
after_last_any (a ∷ s) chars = after_head (after_last_any s chars) (contains chars a)
