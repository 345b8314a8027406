-- ===== src/Algo/ProgPow.antt =====
-- sources/algo/progpow/progpow.cpp: the order in which the registers are written and read in a period.
pub mod Registers
pub mod Variants
pub mod Writers
pub mod KernelSource
pub mod Program
pub mod Spelling
pub mod Refinement
pub mod Sound
use luminousminer.Prelude.{
  ℕ, zero, suc, ◌+◌, ◌/◌, ◌%◌, ◌^◌, Option, none, some, List, [], ◌∷◌, get_elem?, set, numbers,
}
use luminousminer.Prelude.Word.{u32, sub32}
use luminousminer.Algo.Crypto.{Kiss99Properties, fnv1_offset, fnv1a, kiss99}

-- `common::swap` of two elements; `none` where an index lies outside of the array.
unfoldable pub swap : List ℕ → ℕ → ℕ → Option (List ℕ)
swap xs i j = elim (get_elem? xs i) [
  | none ↦ none
  | some a ↦ elim (get_elem? xs j) [ none ↦ none | some b ↦ some (set (set xs i b) j a) ]
]

pub record Round : Type 0 where
  pub random : Kiss99Properties
  pub dst : List ℕ
  pub src : List ℕ

-- The loop over i, which stops at 0.
unfoldable pub shuffle : ℕ → Round → Option Round
unfolding swap kiss99
shuffle zero r = some r
shuffle (suc i) r =
    let first = kiss99 r.random in
    let second = kiss99 first.1 in
    elim (swap r.dst (suc i) (first.0 % (suc i + 1))) [
      | none ↦ none
      | some dst ↦ elim (swap r.src (suc i) (second.0 % (suc i + 1))) [
        | none ↦ none
        | some src ↦ shuffle i (record { random = second.1; dst = dst; src = src })
      ]
    ]

unfoldable pub seed_random : ℕ → Kiss99Properties
unfolding fnv1a
seed_random period =
    let z = fnv1a fnv1_offset (u32 period) in
    let w = fnv1a z (u32 (period / 2 ^ 32)) in
    let jsr = fnv1a w (u32 period) in
    record { z = z; w = w; jsr = jsr; jcong = fnv1a jsr (u32 (period / 2 ^ 32)) }

unfoldable pub initialize_round : ℕ → ℕ → Option Round
unfolding seed_random numbers shuffle
initialize_round period regs =
    shuffle (sub32 regs 1)
      (record { random = seed_random period; dst = numbers 0 regs; src = numbers 0 regs })
