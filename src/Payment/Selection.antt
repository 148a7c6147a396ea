-- ===== src/Payment/Selection.antt =====
-- Which of the offered payments is chosen.
use solvela_go.Base.{
  ◌≡◌, ◌⊎◌, inl, inr, true, false, Option, none, some, List, [], ◌∷◌, ◌++◌, All, arith, bytes_eq,
  ap, Bool-cases, Option-cases,
}
use mathlib.Core.Path.{subst}
use solvela_go.Types.Payment.{Scheme, scheme_exact, scheme_escrow, PaymentAccept, PaymentRequired}
use solvela_go.Config.{usdc_mint, solana_network}
use solvela_go.Payment.{is_compatible_accept, first_compatible, find_compatible_scheme}

-- An offer that may be signed under the scheme: in USDC, on Solana.
pub record IsCompatible (scheme : Scheme) (a : PaymentAccept) : Type 0 where
  pub under : a.scheme ≡ scheme
  pub on_solana : a.network ≡ solana_network
  pub in_usdc : a.asset ≡ usdc_mint

IsCompatible-sound :
    (a : PaymentAccept) (s : Scheme) → is_compatible_accept a s ≡ true → IsCompatible s a
unfolding is_compatible_accept
IsCompatible-sound a s h = ground arith

IsCompatible-complete :
    (a : PaymentAccept) (s : Scheme) → is_compatible_accept a s ≡ false → ¬ IsCompatible s a
unfolding is_compatible_accept
IsCompatible-complete a s h = λ c. ground (arith, c.under, c.on_solana, c.in_usdc)

-- The offers before the chosen one, and those behind it.
pub record IsFirst (scheme : Scheme) (accepts : List PaymentAccept) (a : PaymentAccept)
    : Type 0 where
  pub before : List PaymentAccept
  pub behind : List PaymentAccept
  pub splits : accepts ≡ before ++ (a ∷ behind)
  pub compatible : IsCompatible scheme a
  pub earliest : All (λ b. ¬ IsCompatible scheme b) before

first_compatible-some :
    (s : Scheme) (accepts : List PaymentAccept) {a : PaymentAccept}
    → first_compatible s accepts ≡ some a
    → IsFirst s accepts a
unfolding first_compatible
first_compatible-some s [] h = cc
first_compatible-some s (b ∷ accepts) {a} h = elim (Bool-cases (is_compatible_accept b s)) [
  | inl fits ↦
      let found : b ≡ a = cc (rw fits at h) in
      record {
        before = [];
        behind = accepts;
        splits = ap (λ x. x ∷ accepts) found;
        compatible = subst (IsCompatible s) found (IsCompatible-sound b s fits);
        earliest = tt;
      }
  | inr differs ↦
      let later = first_compatible-some s accepts (rw differs at h) in
      record {
        before = b ∷ later.before;
        behind = later.behind;
        splits = ap (◌∷◌ b) later.splits;
        compatible = later.compatible;
        earliest = (IsCompatible-complete b s differs, later.earliest);
      }
]

first_compatible-none :
    (s : Scheme) (accepts : List PaymentAccept)
    → first_compatible s accepts ≡ none
    → All (λ b. ¬ IsCompatible s b) accepts
unfolding first_compatible
first_compatible-none s [] h = tt
first_compatible-none s (b ∷ accepts) h = elim (Bool-cases (is_compatible_accept b s)) [
  | inl fits ↦ absurd (cc (rw fits at h))
  | inr differs ↦
      (IsCompatible-complete b s differs, first_compatible-none s accepts (rw differs at h))
]

-- What a choice must be: the first compatible offer of the exact scheme; if there is none, the first
-- of the escrow scheme; and nothing only if no offer is compatible under either.
abbrev pub IsChoice : List PaymentAccept → Option PaymentAccept → Type 0
IsChoice accepts none =
    All (λ b. ¬ IsCompatible scheme_exact b) accepts
    × All (λ b. ¬ IsCompatible scheme_escrow b) accepts
IsChoice accepts (some a) =
    IsFirst scheme_exact accepts a
    ⊎ (All (λ b. ¬ IsCompatible scheme_exact b) accepts × IsFirst scheme_escrow accepts a)

-- The chosen offer is the first compatible one of the exact scheme, else the first compatible one
-- of the escrow scheme; none is chosen only if no offer is compatible.
pub find_compatible_scheme-IsChoice :
    (pr : PaymentRequired) → IsChoice pr.accepts (find_compatible_scheme pr)
unfolding find_compatible_scheme
find_compatible_scheme-IsChoice pr =
    elim (Option-cases (first_compatible scheme_exact pr.accepts)) [
      | inr (a, exact) ↦ rw exact (inl (first_compatible-some scheme_exact pr.accepts exact))
      | inl no_exact ↦ elim (Option-cases (first_compatible scheme_escrow pr.accepts)) [
        | inr (a, escrow) ↦
            rw (no_exact, escrow)
              (inr (
                first_compatible-none scheme_exact pr.accepts no_exact,
                first_compatible-some scheme_escrow pr.accepts escrow,
              ))
        | inl no_escrow ↦
            rw (no_exact, no_escrow)
              (
                first_compatible-none scheme_exact pr.accepts no_exact,
                first_compatible-none scheme_escrow pr.accepts no_escrow,
              )
      ]
    ]
