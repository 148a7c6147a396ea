-- ===== src/Strings/Laws.antt =====
-- What the string functions compute, against descriptions that do not run them.
use solvela_go.Base.{
  Bytes, ℕ, suc, ◌≡◌, refl, sym, ap, ◌∙◌, ◌↔◌, inl, inr, Bool, true, false, List, [], ◌∷◌, ◌++◌,
  map, reverse, All, arith, drop, contains, nat_eq, Bool-cases, zero,
}
use mathlib.Core.List.{reverse_aux, reverse-reverse}
use mathlib.Core.Path.{subst}
use solvela_go.Strings.{
  has_prefix, contains_text, after_last_any, after_head, drop_while, trim_space, marked,
}

has_prefix_sound : (s t : Bytes) → has_prefix s t ≡ true → (r : Bytes) × (s ≡ t ++ r)
unfolding has_prefix
has_prefix_sound s [] h = (s, refl)
has_prefix_sound [] (b ∷ t) h = cc
has_prefix_sound (a ∷ s) (b ∷ t) h =
    let (r, e) = has_prefix_sound s t (ground arith) in (r, ground arith)

has_prefix-append : (t r : Bytes) → has_prefix (t ++ r) t ≡ true
unfolding has_prefix
has_prefix-append [] [] = refl
has_prefix-append [] (a ∷ r) = refl
has_prefix-append (b ∷ t) r = ground (arith, has_prefix-append t r)

-- A text occurs in another.
abbrev pub Occurs : Bytes → Bytes → Type 0
Occurs t s = (l : Bytes) × (r : Bytes) × (s ≡ l ++ (t ++ r))

contains_text_sound : (s t : Bytes) → contains_text s t ≡ true → Occurs t s
unfolding contains_text
contains_text_sound [] t h = let (r, e) = has_prefix_sound [] t h in ([], r, e)
contains_text_sound (a ∷ s) t h = elim (Bool-cases (has_prefix (a ∷ s) t)) [
  | inl here ↦ let (r, e) = has_prefix_sound (a ∷ s) t here in ([], r, e)
  | inr later ↦ let (l, r, e) = contains_text_sound s t (ground arith) in (a ∷ l, r, ap (◌∷◌ a) e)
]

contains_text-append : (l t r : Bytes) → contains_text (l ++ (t ++ r)) t ≡ true
unfolding contains_text
contains_text-append [] [] [] = has_prefix-append [] []
contains_text-append [] [] (a ∷ r) = ground (arith, has_prefix-append [] (a ∷ r))
contains_text-append [] (b ∷ t) r = ground (arith, has_prefix-append (b ∷ t) r)
contains_text-append (a ∷ l) t r = ground (arith, contains_text-append l t r)

pub contains_text_iff : (s t : Bytes) → (contains_text s t ≡ true) ↔ Occurs t s
contains_text_iff s t = (contains_text_sound s t, λ (l, r, e). rw e (contains_text-append l t r))

drop_while-nil {ℓ} :
    {A : Type ℓ} (p : A → Bool) (xs : List A) → drop_while p xs ≡ [] → All (λ x. p x ≡ true) xs
unfolding drop_while
drop_while-nil p [] h = tt
drop_while-nil p (x ∷ xs) h = ground (arith, drop_while-nil p xs)

drop_while-All {ℓ} :
    {A : Type ℓ} (p : A → Bool) (xs : List A) → All (λ x. p x ≡ true) xs → drop_while p xs ≡ []
unfolding drop_while
drop_while-All p [] h = refl
drop_while-All p (x ∷ xs) (px, pxs) = rw (px, drop_while-All p xs pxs)

All-drop_while {ℓ} :
    {A : Type ℓ} (p : A → Bool) (xs : List A)
    → All (λ x. p x ≡ true) (drop_while p xs)
    → All (λ x. p x ≡ true) xs
unfolding drop_while
All-drop_while p [] h = tt
All-drop_while p (x ∷ xs) h = ground (arith, All-drop_while p xs)

-- The token after the last separator holds no separator.
pub drop-after_last_any :
    (s chars : Bytes) → All (λ c. contains chars c ≡ false) (drop (after_last_any s chars) s)
unfolding drop after_last_any
drop-after_last_any [] chars = tt
drop-after_last_any (a ∷ s) chars =
    behind (after_last_any s chars) (contains chars a) refl (drop-after_last_any s chars)
  where
    behind :
        (k : ℕ) (hit : Bool)
        → contains chars a ≡ hit
        → All (λ c. contains chars c ≡ false) (drop k s)
        → All (λ c. contains chars c ≡ false) (drop (after_head k hit) (a ∷ s))
    behind zero true e h = h
    behind zero false e h = (e, h)
    behind (suc k) hit e h = h

module _ {ℓ κ} {A : Type ℓ} (P : A → Type κ) where
  All-reverse_aux : (xs acc : List A) → All P xs → All P acc → All P (reverse_aux xs acc)
  All-reverse_aux [] acc h k = k
  All-reverse_aux (x ∷ xs) acc h k = All-reverse_aux xs (x ∷ acc) h.1 (h.0, k)

  pub All-reverse : (xs : List A) → All P (reverse xs) → All P xs
  All-reverse xs h = subst (All P) (reverse-reverse xs) (All-reverse_aux (reverse xs) [] h tt)

-- A text is blank if each of its bytes belongs to a white-space rune.
abbrev pub IsBlank : Bytes → Type 0
IsBlank s = All (λ c. c.1 ≡ true) (marked 0 s)

map-nil {ℓ κ} : {A : Type ℓ} {B : Type κ} (f : A → B) (xs : List A) → map f xs ≡ [] → xs ≡ []
map-nil f [] h = refl
map-nil f (x ∷ xs) h = cc

pub trim_space_nil : (s : Bytes) → (trim_space s ≡ []) ↔ IsBlank s
unfolding trim_space
trim_space_nil s = (empty, λ blank. rw (drop_while-All (λ c. c.1) (marked 0 s) blank))
  where
    space : ℕ × Bool → Bool
    space c = c.1

    empty : trim_space s ≡ [] → IsBlank s
    empty h =
        let ys = drop_while space (marked 0 s) in
        let zs = drop_while space (reverse ys) in
        let none_left : zs ≡ [] =
          sym (reverse-reverse zs) ∙ ap reverse (map-nil (λ c. c.0) (reverse zs) h) in
        All-drop_while space (marked 0 s)
          (All-reverse (λ c. c.1 ≡ true) ys (drop_while-nil space (reverse ys) none_left))
