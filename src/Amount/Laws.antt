-- ===== src/Amount/Laws.antt =====
-- What `parse_amount` accepts.
use solvela_go.Base.{
  Bytes, ℕ, ◌+◌, ◌-◌, ◌*◌, ◌≤◌, ◌<◌, ◌≡◌, refl, sym, ap, ◌∙◌, ◌≢◌, ◌↔◌, [], ◌∷◌, All,
}
use solvela_go.Base.{arith, inl, inr, ◌⊎◌, bytes_eq}
use mathlib.Core.List.{cons-ne-nil}
use solvela_go.Errors.{NumError, ok}
use solvela_go.Strings.{trim_space}
use solvela_go.Amount.{Parsed, parsed, refused, max_uint64, digit_step, scan, parse_uint}
use solvela_go.Amount.{parse_amount}

abbrev pub IsDigit : ℕ → Type 0
IsDigit c = (b'0' ≤ c) × (c ≤ b'9')

-- The number that digits spell behind `n`, with no bound.
abbrev pub value : ℕ → Bytes → ℕ
value n [] = n
value n (c ∷ s) = value (n * 10 + (c - b'0')) s

le-value : (n : ℕ) (s : Bytes) → n ≤ value n s
le-value n [] = omega arith
le-value n (c ∷ s) = omega (arith, le-value (n * 10 + (c - b'0')) s)

digit_step_sound :
    (n c m : ℕ)
    → digit_step n c ≡ parsed m
    → IsDigit c × (m ≡ n * 10 + (c - b'0')) × (m ≤ max_uint64)
unfolding digit_step
digit_step_sound n c m h = ground arith

digit_step_complete :
    (n c : ℕ)
    → IsDigit c
    → n * 10 + (c - b'0') ≤ max_uint64
    → digit_step n c ≡ parsed (n * 10 + (c - b'0'))
unfolding digit_step
digit_step_complete n c d h = ground arith

pub Parsed-cases : (p : Parsed) → ((n : ℕ) × (p ≡ parsed n)) ⊎ ((e : NumError) × (p ≡ refused e))
Parsed-cases (parsed n) = inl (n, refl)
Parsed-cases (refused e) = inr (e, refl)

scan_sound :
    (s : Bytes) (n r : ℕ)
    → n ≤ max_uint64
    → scan s n ≡ parsed r
    → All IsDigit s × (value n s ≡ r) × (r ≤ max_uint64)
unfolding scan
scan_sound [] n r fits h = ground arith
scan_sound (c ∷ s) n r fits h = elim (Parsed-cases (digit_step n c)) [
  | inl (m, e) ↦
      let (dc, exact, small) = digit_step_sound n c m e in
      let (ds, total, bound) = scan_sound s m r small (rw e at h) in
      ((dc, ds), ap (λ k. value k s) (sym exact) ∙ total, bound)
  | inr (x, e) ↦ absurd (cc (rw e at h))
]

scan_complete :
    (s : Bytes) (n : ℕ) → All IsDigit s → value n s ≤ max_uint64 → scan s n ≡ parsed (value n s)
unfolding scan
scan_complete [] n d fits = refl
scan_complete (c ∷ s) n (dc, ds) fits =
    rw (digit_step_complete n c dc (omega (arith, le-value (n * 10 + (c - b'0')) s)))
      (scan_complete s (n * 10 + (c - b'0')) ds fits)

pub parse_uint_iff :
    (s : Bytes) (n : ℕ)
    → (parse_uint s ≡ parsed n) ↔ ((s ≢ []) × All IsDigit s × (value 0 s ≡ n) × (n ≤ max_uint64))
unfolding parse_uint
parse_uint_iff [] n = ground arith
parse_uint_iff (c ∷ s) n = (
  λ h.
      let (d, exact, bound) = scan_sound (c ∷ s) 0 n (omega arith) h in
      (cons-ne-nil c s, d, exact, bound),
  λ (_, d, exact, bound). scan_complete (c ∷ s) 0 d (omega arith) ∙ ap parsed exact,
)

-- A payment amount is accepted exactly if its text, less the white space around it, is one or more
-- decimal digits whose value is positive and fits 64 bits; the value is then the result.
pub parse_amount_iff :
    (s : Bytes) (n : ℕ)
    → (parse_amount s ≡ ok n) ↔ (
        (trim_space s ≢ [])
        × All IsDigit (trim_space s)
        × (value 0 (trim_space s) ≡ n)
        × (0 < n)
        × (n ≤ max_uint64))
unfolding parse_amount
parse_amount_iff s n =
    ground (arith, parse_uint_iff (trim_space s) n, Parsed-cases (parse_uint (trim_space s)))
