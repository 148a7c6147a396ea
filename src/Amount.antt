-- ===== src/Amount.antt =====
-- client.go, `parseAmount`, and `strconv.ParseUint(s, 10, 64)` under it.
pub mod Laws
use solvela_go.Base.{Bytes, ℕ, ◌+◌, ◌-◌, ◌*◌, ◌/◌, ◌%◌, ◌^◌, ◌||◌, [], ◌∷◌, ltb, leb, ◌==◌, nat_eq}
use solvela_go.Base.{bytes_eq, if◌then◌else◌}
use solvela_go.Errors.{Result, ok, err, ◌>>=◌, Message, client_error, lit, quoted, num_error}
use solvela_go.Errors.{NumError, syntax_error, range_error}
use solvela_go.Strings.{trim_space}

pub data Parsed : Type 0 where
  parsed : ℕ → Parsed
  refused : NumError → Parsed

abbrev pub max_uint64 : ℕ
max_uint64 = 2 ^ 64 - 1

-- The smallest number such that ten times it overflows.
abbrev cutoff : ℕ
cutoff = max_uint64 / 10 + 1

-- One round of the loop of `ParseUint` at base 10: a letter is a digit of 10 or more.
digit_step : ℕ → ℕ → Parsed
digit_step n c =
    let n' = n * 10 in
    let n1 = (n' + (c - b'0')) % 2 ^ 64 in
    if ltb c b'0' || ltb b'9' c
    then refused syntax_error
    else if leb cutoff n
    then refused range_error
    else if ltb n1 n' || ltb max_uint64 n1
    then refused range_error
    else parsed n1

infixl 5 ◌then_parse◌
abbrev ◌then_parse◌ : Parsed → (ℕ → Parsed) → Parsed
parsed n then_parse k = k n
refused e then_parse k = refused e

scan : Bytes → ℕ → Parsed
scan [] n = parsed n
scan (c ∷ s) n = digit_step n c then_parse scan s

unfoldable pub parse_uint : Bytes → Parsed
unfolding scan digit_step
parse_uint [] = refused syntax_error
parse_uint (c ∷ s) = scan (c ∷ s) 0

abbrev invalid_amount : Bytes → Message → Message
invalid_amount s why = lit "invalid payment amount " ∷ quoted s ∷ lit ": " ∷ why

nonzero : Bytes → Parsed → Result ℕ
nonzero s (parsed n) =
    if n == 0
    then err (client_error (invalid_amount s (lit "must be greater than zero" ∷ [])))
    else ok n
nonzero s (refused e) = err (client_error (invalid_amount s (num_error e ∷ [])))

unfoldable pub parse_amount : Bytes → Result ℕ
unfolding nonzero parse_uint
parse_amount s =
    let trimmed = trim_space s in
    if trimmed == []
    then err (client_error (invalid_amount s (lit "empty" ∷ [])))
    else nonzero s (parse_uint trimmed)
