-- ===== src/Algo/FastMod/Exact.antt =====
-- The remainder that fast_mod.cpp computes, and how far its quotient goes.
use native.Mathlib.Nat.{le_of_lt, mul-le-mul_right, le-div_iff_mul-le, mod-eq_of_lt, mod-eq-sub-mod}
use luminousminer.Prelude.{
  ℕ, zero, suc, ◌+◌, ◌-◌, ◌*◌, ◌/◌, ◌%◌, ◌^◌, ◌≤◌, ◌<◌, ◌≡◌, refl, sym, ◌∙◌, ap, inl, inr, none,
  some, arith, leb, Bool-cases,
}
use luminousminer.Prelude.Word.{u32, sub32}
use luminousminer.Algo.FastMod.{FastDivisor, init_fast_mod, subtract_loop, quotient_of, fast_mod}

subtract_loop-mod :
    (fuel d r : ℕ) → 0 < d → r < 2 ^ 32 → r < fuel → subtract_loop fuel d r ≡ some (r % d)
unfolding subtract_loop
subtract_loop-mod zero d r pos fits enough = elim enough [ ]
subtract_loop-mod (suc fuel) d r pos fits enough = elim (Bool-cases (leb d r)) [
  | inl again ↦
      let le : d ≤ r = ground arith in
      let less : sub32 r d ≡ r - d = omega arith in
      rw again (
        subtract_loop-mod fuel d (sub32 r d) pos (omega arith) (omega arith)
        ∙ ap some (ap (λ (t : ℕ). t % d) less ∙ sym (mod-eq-sub-mod le)))
  | inr done ↦ rw done (ap some (sym (mod-eq_of_lt (ground arith))))
]

-- The magic number before it is cut to 32 bits.
abbrev full_magic : ℕ → ℕ
full_magic d = (2 ^ 63 + d - 1) / d

abbrev fields_of : ℕ → FastDivisor
fields_of d = record { divisor = d; magic = u32 (full_magic d); shift = 31 }

init_fast_mod-large : (d : ℕ) → 2 ≤ d → d ≤ 2 ^ 31 → init_fast_mod d ≡ some (fields_of d)
unfolding init_fast_mod
init_fast_mod-large d lo hi = ground arith

-- The cut magic number is the full one less a multiple of 2 ^ 32, at least one.
cut_magic :
    (d : ℕ)
    → 2 ≤ d
    → d ≤ 2 ^ 31
    → (u32 (full_magic d) + 2 ^ 32 ≤ full_magic d) × (full_magic d * d < 2 ^ 63 + d)
cut_magic d lo hi =
    let large : 2 ^ 32 ≤ full_magic d =
      (le-div_iff_mul-le {k = d} {x = 2 ^ 32} {y = 2 ^ 63 + d - 1} (omega arith)).1 (omega arith) in
    (omega arith, grind arith)

-- A product below 2 ^ 63 that is short of it by the cut.
short_product :
    (d value m full : ℕ)
    → m + 2 ^ 32 ≤ full
    → full * d < 2 ^ 63 + d
    → 2 ≤ d
    → value < d
    → value * m < 2 ^ 63
short_product d value m full cut tight lo below =
    omega (arith, mul-le-mul_right m (le_of_lt below), mul-le-mul_right d cut)

-- The quotient that is read from the product is at most 1, and never too large.
product_bound : (value m : ℕ) → value < 2 ^ 32 → m < 2 ^ 32 → value * m < 2 ^ 64
product_bound value m p q = grind arith

quotient_bounds :
    (d value : ℕ)
    → 2 ≤ d
    → d ≤ 2 ^ 31
    → value < 2 ^ 32
    → (quotient_of (fields_of d) value ≤ 1) × (quotient_of (fields_of d) value * d ≤ value)
unfolding quotient_of
quotient_bounds d value lo hi fits = grind (
  arith,
  product_bound value (u32 (full_magic d)) fits (omega arith),
  short_product d value (u32 (full_magic d)) (full_magic d) (cut_magic d lo hi).0
      (cut_magic d lo hi).1 lo,
)

subtract_once : (d value q : ℕ) → q ≤ 1 → q * d ≤ value → (value - q * d) % d ≡ value % d
subtract_once d value zero small le = ap (λ (t : ℕ). t % d) (omega arith)
subtract_once d value (suc zero) small le =
    ap (λ (t : ℕ). t % d) (omega arith) ∙ sym (mod-eq-sub-mod {n = value} {m = d} (omega arith))
subtract_once d value (suc (suc q)) small le = absurd (omega arith)

fast_mod-large :
    (fuel d value : ℕ)
    → 2 ≤ d
    → d ≤ 2 ^ 31
    → value < 2 ^ 32
    → value < fuel
    → fast_mod fuel (fields_of d) value ≡ some (value % d)
unfolding fast_mod
fast_mod-large fuel d value lo hi fits enough =
    let bounds = quotient_bounds d value lo hi fits in
    let q : ℕ = quotient_of (fields_of d) value in
    let rest : sub32 value (u32 (q * d)) ≡ value - q * d = omega arith in
    rw rest (
      subtract_loop-mod fuel d (value - q * d) (omega arith) (omega arith) (omega arith)
      ∙ ap some (subtract_once d value q bounds.0 bounds.1))

abbrev by_one : FastDivisor
by_one = record { divisor = 1; magic = 0; shift = 0 }

-- For a divisor from 1 to 2 ^ 31, a 32-bit value and fuel above it, `initFastMod` succeeds and
-- `fastMod` with its result ends with the remainder of the value by the divisor.
pub fast_mod_remainder :
    (fuel d value : ℕ)
    → 1 ≤ d
    → d ≤ 2 ^ 31
    → value < 2 ^ 32
    → value < fuel
    → (f : FastDivisor) × (init_fast_mod d ≡ some f) × (fast_mod fuel f value ≡ some (value % d))
unfolding init_fast_mod fast_mod
fast_mod_remainder fuel zero value lo hi fits enough = absurd (omega arith)
fast_mod_remainder fuel (suc zero) value lo hi fits enough = (
  by_one,
  refl,
  let same : sub32 value (u32 (quotient_of by_one value * 1)) ≡ value = omega arith in
      rw same (subtract_loop-mod fuel 1 value (omega arith) fits enough),
)
fast_mod_remainder fuel (suc (suc d)) value lo hi fits enough = (
  fields_of (suc (suc d)),
  init_fast_mod-large (suc (suc d)) (omega arith) hi,
  fast_mod-large fuel (suc (suc d)) value (omega arith) hi fits enough,
)

-- For a divisor from 2 to 2 ^ 31 and a 32-bit value, `initFastMod` succeeds and the quotient that
-- `fastMod` reads from the product is 0 or 1.
pub fast_mod_quotient :
    (d value : ℕ)
    → 2 ≤ d
    → d ≤ 2 ^ 31
    → value < 2 ^ 32
    → (f : FastDivisor) × (init_fast_mod d ≡ some f) × (quotient_of f value ≤ 1)
fast_mod_quotient d value lo hi fits =
    (fields_of d, init_fast_mod-large d lo hi, (quotient_bounds d value lo hi fits).0)

-- For a 32-bit divisor above 2 ^ 31 the computation of the magic number shifts a 64-bit one by 64.
pub init_fast_mod_overflow : (d : ℕ) → 2 ^ 31 < d → d < 2 ^ 32 → init_fast_mod d ≡ none
unfolding init_fast_mod
init_fast_mod_overflow d lo hi = ground arith
