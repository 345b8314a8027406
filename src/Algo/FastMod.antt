-- ===== src/Algo/FastMod.antt =====
-- sources/algo/fast_mod.hpp and fast_mod.cpp: the remainder by a fixed 32-bit divisor.
pub mod Exact
use luminousminer.Prelude.{
  ℕ, zero, suc, ◌+◌, ◌-◌, ◌*◌, ◌/◌, ◌^◌, ◌||◌, Option, none, some, ltb, leb, ◌==◌, if◌then◌else◌,
}
use luminousminer.Prelude.Word.{u32, u64, sub32}

pub record FastDivisor : Type 0 where
  pub divisor : ℕ
  pub magic : ℕ
  pub shift : ℕ

-- `while ((one << p) < d) ++p;` with the rounds left as fuel. A shift of a 64-bit word by 64 or
-- more is undefined in C++: `none`, as when the fuel runs out.
find_shift : ℕ → ℕ → ℕ → Option ℕ
find_shift zero d p = none
find_shift (suc fuel) d p =
    let rest = find_shift fuel d (p + 1) in
    if leb 64 p then none else if ltb (u64 (2 ^ p)) d then rest else some p

-- `((one << (p + 32u)) + d - 1ull) / d`, cut to 32 bits; `none` for the undefined shift.
magic_of : ℕ → ℕ → Option ℕ
magic_of d p = if leb 64 (p + 32) then none else some (u32 (u64 (2 ^ (p + 32) + d - 1) / d))

-- 64 rounds are enough: a shift by 64 is undefined, so the loop cannot go on.
pub init_fast_mod : ℕ → Option FastDivisor
unfolding find_shift magic_of
init_fast_mod d =
    if d == 0 || d == 1
    then some (record { divisor = d; magic = 0; shift = 0 })
    else elim (find_shift 64 d 31) [
      | none ↦ none
      | some p ↦ elim (magic_of d p) [
        | none ↦ none
        | some m ↦ some (record { divisor = d; magic = m; shift = p })
      ]
    ]

-- `while (r >= d) r -= d;` with fuel; `none` when it runs out.
subtract_loop : ℕ → ℕ → ℕ → Option ℕ
subtract_loop zero d r = none
subtract_loop (suc fuel) d r =
    let rest = subtract_loop fuel d (sub32 r d) in if leb d r then rest else some r

-- `static_cast<uint32_t>(mul >> (32u + s))`.
pub quotient_of : FastDivisor → ℕ → ℕ
quotient_of f value = u32 (u64 (value * f.magic) / 2 ^ (32 + f.shift))

pub fast_mod : ℕ → FastDivisor → ℕ → Option ℕ
unfolding subtract_loop quotient_of
fast_mod fuel f value =
    subtract_loop fuel f.divisor (sub32 value (u32 (quotient_of f value * f.divisor)))
