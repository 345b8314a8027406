-- ===== src/Prelude/Arith.antt =====
-- Division and positional numbers, for the components that split a number into digits.
use Prim.Native.Nat.{ℕ, ◌+◌, ◌*◌, ◌/◌, ◌<◌}
use mathlib.Core.Path.{◌≡◌}
use native.Mathlib.Nat.{le-div_iff_mul-le, div-lt_iff_lt-mul}
use native.Mathlib.Omega.{arith}

-- A number whose low part is below the weight has the digit above as its quotient.
pub quotient_digit : (digit weight low : ℕ) → low < weight → (digit * weight + low) / weight ≡ digit
quotient_digit digit weight low h = omega (
  arith,
  (le-div_iff_mul-le {k = weight} {x = digit} {y = digit * weight + low} (omega arith)).1
      (omega arith),
  (div-lt_iff_lt-mul {k = weight} {x = digit * weight + low} {y = digit + 1} (omega arith)).1
      (omega arith),
)
