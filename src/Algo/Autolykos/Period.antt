-- ===== src/Algo/Autolykos/Period.antt =====
-- `computePeriod` of sources/algo/autolykos/autolykos.cpp: its range.
use native.Mathlib.Omega.{arith}
use luminousminer.Prelude.{
  ℕ_discrete, dec_lt, ℕ, zero, suc, ◌+◌, ◌/◌, ◌≤◌, ◌<◌, ◌≡◌, refl, ap, Bool, true, false, ◌&&◌, leb,
  leb→le,
}
use luminousminer.Prelude.Word.{u32, sub32}
use luminousminer.Algo.Autolykos.{
  block_begin, block_end, epoch_min, epoch_max, epoch_period, grow, compute_period,
}

-- The period after n rounds.
period_after : ℕ → ℕ
period_after n = grow n epoch_min

-- Whether each of the first n rounds leaves a period no smaller than it was.
ordered : ℕ → Bool
unfolding period_after
ordered zero = true
ordered (suc n) = let rest = ordered n in leb (period_after n) (period_after (suc n)) && rest

all_ordered : ordered 71 ≡ true
unfolding ordered period_after grow
all_ordered = refl

last_round : period_after 71 ≡ epoch_max
unfolding period_after grow
last_round = refl

both : (a b : Bool) → (a && b) ≡ true → (a ≡ true) × (b ≡ true)
both true b h = (refl, h)
both false b h = absurd (ground (arith, h))

ordered_le : (n k m : ℕ) → ordered n ≡ true → k ≤ m → m ≤ n → period_after k ≤ period_after m
unfolding ordered
ordered_le zero k m h a b =
    let first : k ≡ 0 = omega (arith, a, b) in
    let last : m ≡ 0 = omega (arith, b) in
    omega (arith, ap period_after first, ap period_after last)
ordered_le (suc n) k m h a b =
    let (step, rest) = both (leb (period_after n) (period_after (suc n))) (ordered n) h in
    elim (ℕ_discrete m (suc n)) [
      | no lower ↦ ordered_le n k m rest a (omega (arith, b, lower))
      | yes top ↦ elim (ℕ_discrete k (suc n)) [
        | yes same ↦ omega (arith, ap period_after same, ap period_after top)
        | no less ↦
            let before = ordered_le n k n rest (omega (arith, a, b, less)) (omega arith) in
            let last = leb→le (period_after n) (period_after (suc n)) step in
            omega (arith, before, last, ap period_after top)
      ]
    ]

least_period : period_after 0 ≡ epoch_min
unfolding period_after grow
least_period = refl

-- The rounds for a height below the last block.
rounds_of : ℕ → ℕ
rounds_of b = u32 (sub32 b block_begin / epoch_period + 1)

compute_period-rounds : (b : ℕ) → b < block_end → compute_period b ≡ period_after (rounds_of b)
unfolding compute_period period_after rounds_of
compute_period-rounds b below =
    let test : leb block_end b ≡ false = ground (arith, below) in rw test refl

compute_period_end : (b : ℕ) → block_end ≤ b → compute_period b ≡ epoch_max
unfolding compute_period
compute_period_end b above =
    let test : leb block_end b ≡ true = ground (arith, above) in rw test refl

rounds_few : (b : ℕ) → block_begin ≤ b → b < block_end → rounds_of b ≤ 70
unfolding rounds_of
rounds_few b from below = omega (arith, from, below)

rounds_of-le : (b c : ℕ) → block_begin ≤ b → b ≤ c → c < block_end → rounds_of b ≤ rounds_of c
unfolding rounds_of
rounds_of-le b c from up below = omega (arith, from, up, below)

in_range :
    (b : ℕ) → block_begin ≤ b → (epoch_min ≤ compute_period b) × (compute_period b ≤ epoch_max)
in_range b from = elim (dec_lt b block_end) [
  | yes below ↦
      let p = compute_period-rounds b below in
      let few = rounds_few b from below in
      let least = ordered_le 71 0 (rounds_of b) all_ordered (omega arith) (omega (arith, few)) in
      let last = ordered_le 71 (rounds_of b) 71 all_ordered (omega (arith, few)) (omega arith) in
      (omega (arith, p, least, least_period), omega (arith, p, last, last_round))
  | no above ↦
      let p = compute_period_end b (omega (arith, above)) in (omega (arith, p), omega (arith, p))
]

-- For heights from the first block of the second version on: the period lies between its least
-- and its largest value, and does not decrease with the height.
pub compute_period-le :
    (b c : ℕ)
    → block_begin ≤ b
    → b ≤ c
    → (epoch_min ≤ compute_period b)
      × (compute_period b ≤ compute_period c)
      × (compute_period c ≤ epoch_max)
compute_period-le b c from up =
    let low = in_range b from in
    let high = in_range c (omega (arith, from, up)) in
    elim (dec_lt c block_end) [
      | yes below ↦
          let pb = compute_period-rounds b (omega (arith, up, below)) in
          let pc = compute_period-rounds c below in
          let most = rounds_few c (omega (arith, from, up)) below in
          let order = rounds_of-le b c from up below in
          let middle =
            ordered_le 71 (rounds_of b) (rounds_of c) all_ordered order (omega (arith, most)) in
          (low.0, omega (arith, pb, pc, middle), high.1)
      | no above ↦
          let pc = compute_period_end c (omega (arith, above)) in
          (low.0, omega (arith, pc, low.1), high.1)
    ]
