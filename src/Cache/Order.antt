-- ===== src/Cache/Order.antt =====
-- The list that keeps the order of use: its laws, and the meaning of one removal.
use solvela_go.Base.{
  ℕ, suc, ◌≡◌, refl, true, false, List, [], ◌∷◌, ◌++◌, arith, contains, ◌==◌, nat_eq, if◌then◌else◌,
  length,
}
use solvela_go.Cache.{remove_from_order}

abbrev pub Distinct : List ℕ → Type 0
Distinct [] = Unit
Distinct (k ∷ order) = (contains order k ≡ false) × Distinct order

pub contains-remove :
    (key j : ℕ) (order : List ℕ)
    → Distinct order
    → contains (remove_from_order key order) j ≡ (if key == j then false else contains order j)
unfolding remove_from_order
contains-remove key j [] d = ground arith
contains-remove key j (k ∷ order) (fresh, d) = ground (arith, contains-remove key j order d)

pub remove-Distinct :
    (key : ℕ) (order : List ℕ) → Distinct order → Distinct (remove_from_order key order)
unfolding remove_from_order
remove-Distinct key [] d = tt
remove-Distinct key (k ∷ order) (fresh, d) =
    ground (arith, remove-Distinct key order d, contains-remove key k order d)

pub contains-push :
    (key j : ℕ) (order : List ℕ)
    → contains (order ++ key ∷ []) j ≡ (if key == j then true else contains order j)
contains-push key j [] = ground arith
contains-push key j (k ∷ order) = ground (arith, contains-push key j order)

pub push-Distinct :
    (key : ℕ) (order : List ℕ)
    → contains order key ≡ false
    → Distinct order
    → Distinct (order ++ key ∷ [])
push-Distinct key [] fresh d = (refl, tt)
push-Distinct key (k ∷ order) fresh (f, d) =
    ground (arith, push-Distinct key order, contains-push key k order)

pub length-remove :
    (key : ℕ) (order : List ℕ)
    → length order ≡ (
        if contains order key
        then suc (length (remove_from_order key order))
        else length (remove_from_order key order))
unfolding remove_from_order
length-remove key [] = refl
length-remove key (k ∷ order) = ground (arith, length-remove key order)

pub remove_absent :
    (key : ℕ) (order : List ℕ) → contains order key ≡ false → remove_from_order key order ≡ order
unfolding remove_from_order
remove_absent key [] h = refl
remove_absent key (k ∷ order) h = ground (arith, remove_absent key order)
