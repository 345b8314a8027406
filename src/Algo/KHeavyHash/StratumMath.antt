-- ===== src/Algo/KHeavyHash/StratumMath.antt =====
-- sources/algo/kheavyhash/stratum_math.cpp over its integers: the target is computed from the
-- divisor, the difficulty scaled by 2 ^ 16. `|` joins fields that do not overlap, so it is a sum.
pub mod Division
use mathlib.Core.List.{reverse}
use luminousminer.Prelude.{
  ℕ, zero, suc, ◌+◌, ◌-◌, ◌*◌, ◌/◌, ◌%◌, ◌^◌, List, [], ◌∷◌, ◌++◌, if◌then◌else◌, ltb, replicate,
}
use luminousminer.Prelude.Word.{u8, u32, u64}

-- The low `n` bytes of a word, least significant first.
unfoldable pub bytes_of : ℕ → ℕ → List ℕ
bytes_of zero word = []
bytes_of (suc n) word = word % 2 ^ 8 ∷ bytes_of n (word / 2 ^ 8)

-- `prePowFromWords`: four little-endian words one after the other.
unfoldable pub pre_pow_from_words : List ℕ → List ℕ
unfolding bytes_of
pre_pow_from_words [] = []
pre_pow_from_words (word ∷ words) = bytes_of 8 word ++ pre_pow_from_words words

-- `maxTarget`, least significant limb first.
abbrev pub max_target : List ℕ
max_target = replicate 7 0xffffffff ++ 0 ∷ []

-- The numerator: each limb takes 16 bits from the one below it.
unfoldable pub shift_limbs : ℕ → List ℕ → List ℕ
shift_limbs below [] = []
shift_limbs below (limb ∷ limbs) = (u32 (limb * 2 ^ 16) + below / 2 ^ 16) ∷ shift_limbs limb limbs

-- The long division from the highest limb down.
unfoldable pub long_division : ℕ → ℕ → List ℕ → List ℕ
long_division divisor remainder [] = []
long_division divisor remainder (limb ∷ limbs) =
    let cur = u64 (remainder * 2 ^ 32) + limb in
    u32 (cur / divisor) ∷ long_division divisor (cur % divisor) limbs

-- Each limb of the quotient as four bytes.
unfoldable pub serialise : List ℕ → List ℕ
unfolding bytes_of
serialise [] = []
serialise (limb ∷ limbs) = bytes_of 4 limb ++ serialise limbs

-- `difficultyToTargetLe` from the scaled difficulty on: the clamp of the divisor, the numerator, the
-- division and the serialisation.
unfoldable pub target_of_divisor : ℕ → List ℕ
unfolding shift_limbs long_division serialise
target_of_divisor scaled =
    let divisor = if ltb 0xffffffff scaled then 0xffffffff else scaled in
    serialise (reverse (long_division divisor 0 (reverse (shift_limbs 0 max_target))))
