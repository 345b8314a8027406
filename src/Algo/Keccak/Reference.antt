-- ===== src/Algo/Keccak/Reference.antt =====
-- The Keccak permutation as its authors define it, by the five steps on lanes with two coordinates: the
-- reference for both permutations of sources/algo/keccak.hpp and keccak.cpp. The width of a lane stands
-- in the rotation and the complement, which are parameters.
use Prim.Native.Nat.{bit_and, bit_xor}
use luminousminer.Prelude.{
  tabulate, ℕ, ◌+◌, ◌*◌, ◌/◌, ◌%◌, List, [], ◌∷◌, ◌==◌, if◌then◌else◌, get_or,
}

-- The offsets of the step rho, at x + 5 * y.
abbrev pub rho_offsets : List ℕ
rho_offsets =
    0 ∷ 1 ∷ 62 ∷ 28 ∷ 27 ∷ 36 ∷ 44 ∷ 6 ∷ 55 ∷ 20 ∷ 3 ∷ 10 ∷ 43 ∷ 25 ∷ 39 ∷ 41 ∷ 45 ∷ 15 ∷ 21 ∷ 8
    ∷ 18 ∷ 2 ∷ 61 ∷ 56 ∷ 14 ∷ []

abbrev pub State : Type 0
State = ℕ → ℕ → ℕ

abbrev pub lane : List ℕ → State
lane xs x y = get_or xs (x + 5 * y) 0

module _ (width : ℕ) (rotate : ℕ → ℕ → ℕ) (complement : ℕ → ℕ) where
  column : State → ℕ → ℕ
  column a x = bit_xor (bit_xor (bit_xor (bit_xor (a x 0) (a x 1)) (a x 2)) (a x 3)) (a x 4)

  theta : State → State
  unfolding column
  theta a x y =
      bit_xor (a x y) (bit_xor (column a ((x + 4) % 5)) (rotate (column a ((x + 1) % 5)) 1))

  -- The lane at the origin is not rotated.
  rho : State → State
  rho a x y =
      let offset = get_or rho_offsets (x + 5 * y) 0 % width in
      if x + 5 * y == 0 then a x y else rotate (a x y) offset

  pi : State → State
  pi a x y = a ((x + 3 * y) % 5) x

  chi : State → State
  chi a x y = bit_xor (a x y) (bit_and (complement (a ((x + 1) % 5) y)) (a ((x + 2) % 5) y))

  iota : ℕ → State → State
  iota rc a x y = if x + 5 * y == 0 then bit_xor (a x y) rc else a x y

  unfoldable pub reference_round : ℕ → List ℕ → List ℕ
  unfolding theta rho pi chi iota tabulate
  reference_round rc xs =
      tabulate 25 (λ i. iota rc (chi (pi (rho (theta (lane xs))))) (i % 5) (i / 5))

  unfoldable pub reference : List ℕ → List ℕ → List ℕ
  reference [] xs = xs
  reference (rc ∷ rest) xs = reference rest (reference_round rc xs)
