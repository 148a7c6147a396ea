-- ===== src/Maps/Laws.antt =====
-- The laws of the maps.
use solvela_go.Base.{
  suc, ◌≡◌, refl, none, some, [], ◌∷◌, Eq, ◌==◌, if◌then◌else◌, All, arith, length, Bool-cases, inl,
  inr,
}
use mathlib.Core.Path.{subst}
use solvela_go.Maps.{Dict, lookup, delete, insert, NodupKeys, is_some}

module _ {ℓ κ} {K : Type ℓ} {V : Type κ} ⦃e : Eq K⦄ where
  pub lookup-insert :
      (key j : K) (v : V) (m : Dict K V)
      → lookup j (insert key v m) ≡ (if key == j then some v else lookup j m)
  unfolding lookup insert
  lookup-insert key j v [] = ground arith
  lookup-insert key j v ((k, w) ∷ m) = ground (arith, lookup-insert key j v m)

  pub lookup-delete :
      (key j : K) (m : Dict K V)
      → NodupKeys m
      → lookup j (delete key m) ≡ (if key == j then none else lookup j m)
  unfolding lookup delete
  lookup-delete key j [] u = ground arith
  lookup-delete key j ((k, w) ∷ m) (fresh, u) = ground (arith, lookup-delete key j m u)

  pub insert-NodupKeys : (key : K) (v : V) (m : Dict K V) → NodupKeys m → NodupKeys (insert key v m)
  unfolding insert lookup
  insert-NodupKeys key v [] u = (refl, tt)
  insert-NodupKeys key v ((k, w) ∷ m) (fresh, u) =
      ground (arith, insert-NodupKeys key v m u, lookup-insert key k v m)

  pub delete-NodupKeys : (key : K) (m : Dict K V) → NodupKeys m → NodupKeys (delete key m)
  unfolding delete
  delete-NodupKeys key [] u = tt
  delete-NodupKeys key ((k, w) ∷ m) (fresh, u) =
      ground (arith, delete-NodupKeys key m u, lookup-delete key k m u)

  pub length-insert :
      (key : K) (v : V) (m : Dict K V)
      → length (insert key v m) ≡ (if is_some (lookup key m) then length m else suc (length m))
  unfolding insert lookup
  length-insert key v [] = refl
  length-insert key v ((k, w) ∷ m) = ground (arith, length-insert key v m)

  pub length-delete :
      (key : K) (m : Dict K V)
      → length m
        ≡ (if is_some (lookup key m) then suc (length (delete key m)) else length (delete key m))
  unfolding delete lookup
  length-delete key [] = refl
  length-delete key ((k, w) ∷ m) = ground (arith, length-delete key m)

-- A predicate on the values.
module _ {ℓ κ μ} {K : Type ℓ} {V : Type κ} (P : V → Type μ) ⦃e : Eq K⦄ where
  abbrev pub Values : Dict K V → Type μ
  Values = All (λ (kv : K × V). P kv.1)

  pub lookup-Values : (key : K) (m : Dict K V) {v : V} → Values m → lookup key m ≡ some v → P v
  unfolding lookup
  lookup-Values key [] h found = cc
  lookup-Values key ((k, w) ∷ m) (pw, h) found = elim (Bool-cases (k == key)) [
    | inl hit ↦ let same : w ≡ _ = cc (rw hit at found) in subst P same pw
    | inr miss ↦ lookup-Values key m h (rw miss at found)
  ]

  pub insert-Values : (key : K) (v : V) (m : Dict K V) → P v → Values m → Values (insert key v m)
  unfolding insert
  insert-Values key v [] pv h = (pv, tt)
  insert-Values key v ((k, w) ∷ m) pv (pw, h) = elim (Bool-cases (k == key)) [
    | inl hit ↦ rw hit (pv, h)
    | inr miss ↦ rw miss (pw, insert-Values key v m pv h)
  ]

  pub delete-Values : (key : K) (m : Dict K V) → Values m → Values (delete key m)
  unfolding delete
  delete-Values key [] h = tt
  delete-Values key ((k, w) ∷ m) (pw, h) = elim (Bool-cases (k == key)) [
    | inl hit ↦ rw hit h
    | inr miss ↦ rw miss (pw, delete-Values key m h)
  ]
