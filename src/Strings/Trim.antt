-- ===== src/Strings/Trim.antt =====
-- What is cut from the end of a text, and its last token, as ways to split it.
use solvela_go.Base.{
  Bytes, ℕ, zero, suc, ◌≤◌, ◌≡◌, refl, sym, ap, ◌∙◌, Bool, true, false, [], ◌∷◌, ◌++◌, reverse, All,
  length, take, drop, contains, nat_eq, inl, inr, Bool-cases, arith,
}
use mathlib.Core.List.{reverse-append, reverse-cons, reverse-reverse}
use mathlib.Core.Path.{subst}
use solvela_go.Strings.{drop_while, trim_right, after_last_any, after_head}
use solvela_go.Strings.Laws.{All-reverse}

-- It does not begin with what is dropped.
abbrev Stops : Bytes → Bytes → Type 0
Stops cutset [] = Unit
Stops cutset (c ∷ s) = contains cutset c ≡ false

abbrev InSet : Bytes → ℕ → Type 0
InSet cutset c = contains cutset c ≡ true

drop_while-split :
    (cutset s : Bytes)
    → (front : Bytes) × (s ≡ front ++ drop_while (contains cutset) s)
      × All (InSet cutset) front
      × Stops cutset (drop_while (contains cutset) s)
unfolding drop_while
drop_while-split cutset [] = ([], refl, tt, tt)
drop_while-split cutset (c ∷ s) = elim (Bool-cases (contains cutset c)) [
  | inl hit ↦
      let (front, e, inside, stops) = drop_while-split cutset s in
      rw hit (c ∷ front, ap (◌∷◌ c) e, (hit, inside), stops)
  | inr miss ↦ rw miss ([], refl, tt, miss)
]

drop_while-append :
    (cutset front s : Bytes)
    → All (InSet cutset) front
    → Stops cutset s
    → drop_while (contains cutset) (front ++ s) ≡ s
unfolding drop_while
drop_while-append cutset [] [] inside stops = refl
drop_while-append cutset [] (c ∷ s) inside stops = rw stops refl
drop_while-append cutset (c ∷ front) s (hit, inside) stops =
    rw hit (drop_while-append cutset front s inside stops)

All-reversed : (cutset s : Bytes) → All (InSet cutset) s → All (InSet cutset) (reverse s)
All-reversed cutset s h =
    All-reverse (InSet cutset) (reverse s) (subst (All (InSet cutset)) (sym (reverse-reverse s)) h)

-- The text is what is left and an end that is cut.
pub trim_right-split :
    (s cutset : Bytes)
    → (trail : Bytes) × (s ≡ trim_right s cutset ++ trail) × All (InSet cutset) trail
unfolding trim_right
trim_right-split s cutset =
    let (front, e, inside, stops) = drop_while-split cutset (reverse s) in
    (
      reverse front,
      sym (reverse-reverse s) ∙ ap reverse e ∙ reverse-append front _,
      All-reversed cutset front inside,
    )

abbrev pub Ends : Bytes → Bytes → Type 0
Ends cutset s =
    (stem : Bytes) × (last : ℕ) × (s ≡ stem ++ last ∷ []) × (contains cutset last ≡ false)

reversed-Ends :
    (cutset s : Bytes) → Stops cutset s → 1 ≤ length (reverse s) → Ends cutset (reverse s)
reversed-Ends cutset [] stops long = absurd (omega arith)
reversed-Ends cutset (c ∷ s) stops long = (reverse s, c, reverse-cons c s, stops)

-- What is left, if anything, ends in a byte that is not cut.
pub trim_right-Ends :
    (s cutset : Bytes) → 1 ≤ length (trim_right s cutset) → Ends cutset (trim_right s cutset)
unfolding trim_right
trim_right-Ends s cutset long =
    let (front, e, inside, stops) = drop_while-split cutset (reverse s) in
    reversed-Ends cutset _ stops long

-- There is one such way to split it.
pub trim_right-append :
    (stem : Bytes) (last : ℕ) (trail cutset : Bytes)
    → contains cutset last ≡ false
    → All (InSet cutset) trail
    → trim_right ((stem ++ last ∷ []) ++ trail) cutset ≡ stem ++ last ∷ []
unfolding trim_right
trim_right-append stem last trail cutset kept cut =
    let t = stem ++ last ∷ [] in
    let turned : reverse t ≡ last ∷ reverse stem = reverse-append stem (last ∷ []) in
    ap (λ r. reverse (drop_while (contains cutset) r))
      (reverse-append t trail ∙ ap (λ r. reverse trail ++ r) turned)
    ∙ ap reverse (
        drop_while-append cutset (reverse trail) (last ∷ reverse stem)
          (All-reversed cutset trail cut) kept
        ∙ sym turned)
    ∙ reverse-reverse t

-- It is empty, or its last byte is a separator.
abbrev pub Apart : Bytes → Bytes → Type 0
Apart seps [] = Unit
Apart seps (a ∷ []) = contains seps a ≡ true
Apart seps (a ∷ b ∷ s) = Apart seps (b ∷ s)

pub take-drop : (n : ℕ) (s : Bytes) → s ≡ take n s ++ drop n s
unfolding take drop
take-drop zero s = refl
take-drop (suc n) [] = refl
take-drop (suc n) (a ∷ s) = ap (◌∷◌ a) (take-drop n s)

-- What stands before the last token
pub take-after_last_any : (s seps : Bytes) → Apart seps (take (after_last_any s seps) s)
unfolding take after_last_any
take-after_last_any [] seps = tt
take-after_last_any (a ∷ s) seps =
    behind s (after_last_any s seps) (contains seps a) refl refl (take-after_last_any s seps)
  where
    behind :
        (s : Bytes) (k : ℕ) (hit : Bool)
        → after_last_any s seps ≡ k
        → contains seps a ≡ hit
        → Apart seps (take k s)
        → Apart seps (take (after_head k hit) (a ∷ s))
    behind s zero true at e h = e
    behind s zero false at e h = tt
    behind [] (suc k) hit at e h = cc
    behind (b ∷ s) (suc k) hit at e h = h

after_last_any-none :
    (s seps : Bytes) → All (λ c. contains seps c ≡ false) s → after_last_any s seps ≡ 0
unfolding after_last_any
after_last_any-none [] seps h = refl
after_last_any-none (a ∷ s) seps (miss, h) = rw (miss, after_last_any-none s seps h) refl

after_last_any-append :
    (body token seps : Bytes)
    → Apart seps body
    → All (λ c. contains seps c ≡ false) token
    → after_last_any (body ++ token) seps ≡ length body
unfolding after_last_any
after_last_any-append [] token seps apart whole = after_last_any-none token seps whole
after_last_any-append (a ∷ []) token seps apart whole =
    rw (apart, after_last_any-none token seps whole) refl
after_last_any-append (a ∷ b ∷ s) token seps apart whole =
    ap (λ k. after_head k (contains seps a)) (after_last_any-append (b ∷ s) token seps apart whole)

drop-length : (body token : Bytes) → drop (length body) (body ++ token) ≡ token
unfolding drop
drop-length [] token = refl
drop-length (a ∷ body) token = drop-length body token

-- There is one last token.
pub drop-append :
    (body token seps : Bytes)
    → Apart seps body
    → All (λ c. contains seps c ≡ false) token
    → drop (after_last_any (body ++ token) seps) (body ++ token) ≡ token
drop-append body token seps apart whole =
    ap (λ k. drop k (body ++ token)) (after_last_any-append body token seps apart whole)
    ∙ drop-length body token
