-- ===== src/Algo/KHeavyHash/StratumMath/Division.antt =====
-- The long division of stratum_math.cpp divides the number that the limbs spell.
use Prim.Native.Nat.{min}
use native.Mathlib.Nat.{mod-lt, mod-eq_of_lt, div-add-mod, div-lt_iff_lt-mul}
use mathlib.Core.List.{reverse}
use luminousminer.Prelude.{
  ℕ, ◌+◌, ◌-◌, ◌*◌, ◌/◌, ◌%◌, ◌^◌, ◌<◌, ◌≡◌, refl, sym, ap, ◌∙◌, List, [], ◌∷◌, arith, ltb,
  if◌then◌else◌,
}
use luminousminer.Prelude.Arith.{quotient_digit}
use luminousminer.Prelude.Word.{u32, u64}
use luminousminer.Algo.KHeavyHash.StratumMath.{
  long_division, bytes_of, shift_limbs, max_target, serialise, target_of_divisor,
}

-- The number that 32-bit limbs spell, highest first, after a higher part.
abbrev pub limbs_value : ℕ → List ℕ → ℕ
limbs_value high [] = high
limbs_value high (limb ∷ limbs) = limbs_value (high * 2 ^ 32 + limb) limbs

abbrev pub AreLimbs : List ℕ → Type 0
AreLimbs [] = Unit {0}
AreLimbs (limb ∷ limbs) = (limb < 2 ^ 32) × AreLimbs limbs

small_digit :
    (divisor remainder limb : ℕ)
    → remainder < divisor
    → limb < 2 ^ 32
    → u32 ((remainder * 2 ^ 32 + limb) / divisor) ≡ (remainder * 2 ^ 32 + limb) / divisor
small_digit divisor remainder limb lt h = mod-eq_of_lt (
    (div-lt_iff_lt-mul {k = divisor} {x = remainder * 2 ^ 32 + limb} {y = 2 ^ 32} (omega arith)).1
      (omega arith))

-- For a divisor that fits 32 bits, the long division gives the limbs of the quotient of the number
-- that the limbs spell.
long_division-value :
    (divisor quotient remainder : ℕ) (limbs : List ℕ)
    → remainder < divisor
    → divisor < 2 ^ 32
    → AreLimbs limbs
    → limbs_value quotient (long_division divisor remainder limbs)
      ≡ limbs_value (quotient * divisor + remainder) limbs / divisor
unfolding long_division
long_division-value divisor quotient remainder [] lt small h =
    sym (quotient_digit quotient divisor remainder lt)
long_division-value divisor quotient remainder (limb ∷ limbs) lt small h =
    let cur : ℕ = remainder * 2 ^ 32 + limb in
    let fits : u64 (remainder * 2 ^ 32) ≡ remainder * 2 ^ 32 = omega arith in
    let digit : u32 (cur / divisor) ≡ cur / divisor = small_digit divisor remainder limb lt h.0 in
    let exact = div-add-mod cur divisor in
    let total : (quotient * 2 ^ 32 + cur / divisor) * divisor + cur % divisor
        ≡ (quotient * divisor + remainder) * 2 ^ 32 + limb =
      omega (arith, exact) in
    rw (fits, digit)
      (long_division-value divisor (quotient * 2 ^ 32 + cur / divisor) (cur % divisor) limbs
          (mod-lt cur (omega arith)) small h.1
        ∙ ap (λ (t : ℕ). limbs_value t limbs / divisor) total)

-- The number that bytes and limbs spell, least significant first.
abbrev pub le_bytes : List ℕ → ℕ
le_bytes [] = 0
le_bytes (b ∷ bs) = b + 256 * le_bytes bs

abbrev pub le_limbs : List ℕ → ℕ
le_limbs [] = 0
le_limbs (limb ∷ limbs) = limb + 2 ^ 32 * le_limbs limbs

le_bytes-serialise : (limbs : List ℕ) → AreLimbs limbs → le_bytes (serialise limbs) ≡ le_limbs limbs
unfolding serialise bytes_of
le_bytes-serialise [] h = refl
le_bytes-serialise (limb ∷ limbs) h = omega (arith, h.0, le_bytes-serialise limbs h.1)

-- The eight limbs in either order.
reversed_limbs :
    (q0 q1 q2 q3 q4 q5 q6 q7 : ℕ)
    → le_limbs (q0 ∷ q1 ∷ q2 ∷ q3 ∷ q4 ∷ q5 ∷ q6 ∷ q7 ∷ [])
      ≡ limbs_value 0 (q7 ∷ q6 ∷ q5 ∷ q4 ∷ q3 ∷ q2 ∷ q1 ∷ q0 ∷ [])
reversed_limbs q0 q1 q2 q3 q4 q5 q6 q7 = omega arith

abbrev numerator : List ℕ
numerator = reverse (shift_limbs 0 max_target)

target_by :
    (divisor : ℕ)
    → 0 < divisor
    → divisor < 2 ^ 32
    → le_bytes (serialise (reverse (long_division divisor 0 numerator)))
      ≡ (2 ^ 224 - 1) * 2 ^ 16 / divisor
unfolding long_division shift_limbs
target_by divisor pos small =
    let zero_high : 0 * divisor + 0 ≡ 0 = omega arith in
    le_bytes-serialise (reverse (long_division divisor 0 numerator)) (omega arith)
    ∙ reversed_limbs _ _ _ _ _ _ _ _
    ∙ long_division-value divisor 0 0 numerator pos small (omega arith)
    ∙ ap (λ (t : ℕ). limbs_value t numerator / divisor) zero_high

-- The target of a positive scaled difficulty, read as a little-endian number, is the largest
-- target, 2 ^ 224 - 1 scaled by 2 ^ 16, divided by the scaled difficulty, which is cut at 2 ^ 32 -
-- 1.
pub target_of_divisor-value :
    (scaled : ℕ)
    → 0 < scaled
    → le_bytes (target_of_divisor scaled) ≡ (2 ^ 224 - 1) * 2 ^ 16 / min scaled (2 ^ 32 - 1)
unfolding target_of_divisor
target_of_divisor-value scaled pos =
    let same : (if ltb 0xffffffff scaled then 0xffffffff else scaled) ≡ min scaled (2 ^ 32 - 1) =
      ground arith in
    rw same (target_by (min scaled (2 ^ 32 - 1)) (omega arith) (omega arith))
