-- ===== src/Floats.antt =====
-- The comparisons of `float64` that the program makes, on the 64 bits.
use solvela_go.Base.{
  ℕ, ◌*◌, ◌%◌, ◌^◌, Bool, false, ◌&&◌, ◌||◌, not, ltb, leb, ◌==◌, nat_eq, if◌then◌else◌,
}
use solvela_go.Types.Chat.{Float64}

magnitude : Float64 → ℕ
magnitude x = x % 2 ^ 63

is_negative : Float64 → Bool
is_negative x = leb (2 ^ 63) x

-- The exponent is all ones and the fraction is not zero.
unfoldable pub is_nan : Float64 → Bool
unfolding magnitude
is_nan x = ltb (2047 * 2 ^ 52) (magnitude x)

-- `x == 0`: both zeros
unfoldable pub is_zero : Float64 → Bool
unfolding magnitude
is_zero x = magnitude x == 0

-- `x < y`: never of a NaN
unfoldable pub less : Float64 → Float64 → Bool
unfolding is_nan is_zero magnitude is_negative
less x y =
    if is_nan x || is_nan y
    then false
    else if is_negative x
    then (if is_negative y then ltb (magnitude y) (magnitude x) else not (is_zero x && is_zero y))
    else not (is_negative y) && ltb (magnitude x) (magnitude y)
