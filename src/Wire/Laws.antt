-- ===== src/Wire/Laws.antt =====
-- What the decoding methods of types.go accept.
use solvela_go.Base.{Bytes, ◌≡◌, refl, ap, ◌∙◌, ◌⊎◌, ◌↔◌, List, [], ◌∷◌, bytes_eq, arith, All, map}
use mathlib.Core.Path.{subst, ap₂}
use solvela_go.Errors.{ok, both_returned}
use solvela_go.Types.Payment.{Scheme, scheme_exact, scheme_escrow, PaymentAccept}
use solvela_go.Wire.{parse_scheme, PaymentAcceptWire, unmarshal_payment_accept, unmarshal_accepts}

abbrev pub IsKnown : Scheme → Type 0
IsKnown s = (s ≡ scheme_exact) ⊎ (s ≡ scheme_escrow)

parse_scheme_iff : (raw s : Bytes) → (parse_scheme raw ≡ ok s) ↔ (IsKnown raw × (raw ≡ s))
unfolding parse_scheme
parse_scheme_iff raw s = ground arith

-- What was read of an accept.
abbrev pub wire_of : PaymentAccept → PaymentAcceptWire
wire_of a = record {
  scheme = a.scheme;
  network = a.network;
  amount = a.amount;
  asset = a.asset;
  pay_to = a.pay_to;
  max_timeout_seconds = a.max_timeout_seconds;
  escrow_program_id = a.escrow_program_id;
}

accept_sound :
    (w : PaymentAcceptWire) {a : PaymentAccept}
    → unmarshal_payment_accept w ≡ ok a
    → (w ≡ wire_of a) × IsKnown a.scheme
unfolding unmarshal_payment_accept
accept_sound w {a} h =
    let (s, read, same) = both_returned (parse_scheme w.scheme) _ h in
    let (known, it) = (parse_scheme_iff w.scheme s).0 read in
    let got : s ≡ a.scheme = cc same in (cc (same, it), subst IsKnown (it ∙ got) known)

accept_complete :
    (a : PaymentAccept) → IsKnown a.scheme → unmarshal_payment_accept (wire_of a) ≡ ok a
unfolding unmarshal_payment_accept
accept_complete a known = rw ((parse_scheme_iff a.scheme a.scheme).1 (known, refl)) refl

none_left : {accepts : List PaymentAccept} → ok [] ≡ ok accepts → [] ≡ accepts
none_left h = cc

accepts_sound :
    (ws : List PaymentAcceptWire) {accepts : List PaymentAccept}
    → unmarshal_accepts ws ≡ ok accepts
    → (ws ≡ map wire_of accepts) × All (λ (a : PaymentAccept). IsKnown a.scheme) accepts
unfolding unmarshal_accepts
accepts_sound [] {accepts} h =
    subst (λ l. ([] ≡ map wire_of l) × All (λ (a : PaymentAccept). IsKnown a.scheme) l)
      (none_left h) (refl, tt)
accepts_sound (w ∷ ws) {accepts} h =
    let (a, one, h1) = both_returned (unmarshal_payment_accept w) _ h in
    let (rest, more, h2) = both_returned (unmarshal_accepts ws) _ h1 in
    let (this, known) = accept_sound w one in
    let (those, all) = accepts_sound ws more in
    let same : (a ∷ rest) ≡ accepts = cc h2 in
    subst (λ l. ((w ∷ ws) ≡ map wire_of l) × All (λ (a : PaymentAccept). IsKnown a.scheme) l) same
      (ap₂ (λ x xs. x ∷ xs) this those, (known, all))

accepts_complete :
    (accepts : List PaymentAccept)
    → All (λ (a : PaymentAccept). IsKnown a.scheme) accepts
    → unmarshal_accepts (map wire_of accepts) ≡ ok accepts
unfolding unmarshal_accepts
accepts_complete [] h = refl
accepts_complete (a ∷ accepts) (known, h) =
    rw (accept_complete a known, accepts_complete accepts h) refl

-- The list of accepts of a 402 body is taken exactly if every scheme in it is one of the two known
-- ones, and then no entry is lost, added or changed.
pub unmarshal_accepts_iff :
    (ws : List PaymentAcceptWire) (accepts : List PaymentAccept)
    → (unmarshal_accepts ws ≡ ok accepts)
      ↔ ((ws ≡ map wire_of accepts) × All (λ (a : PaymentAccept). IsKnown a.scheme) accepts)
unmarshal_accepts_iff ws accepts =
    (accepts_sound ws, λ (same, known). ap unmarshal_accepts same ∙ accepts_complete accepts known)
