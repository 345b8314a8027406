-- ===== src/Tests/Matrix.antt =====
-- sources/algo/kheavyhash/matrix.cpp at concrete inputs.
use luminousminer.Prelude.{ℕ, ◌*◌, ◌-◌, ◌≡◌, List, ltb, replicate}
use luminousminer.Algo.KHeavyHash.Matrix.{Doubles, seeded, generate_matrix}
use luminousminer.Algo.KHeavyHash.Matrix.Full.{candidate, IsChosen, IsMatrix, generate_matrix-first}

abbrev small_numbers : Doubles
small_numbers = record {
  Double = ℕ;
  of_entry = λ n. n;
  is_large = λ n. ltb 0 n;
  divide = λ a b. a;
  times = λ a b. a * b;
  minus = λ a b. a - b;
}

abbrev small_seed : List ℕ
small_seed = replicate 32 7

generate_matrix-first_example :
    (k : ℕ) × (generate_matrix small_numbers small_seed ≡ candidate k (seeded small_seed))
    × IsChosen small_numbers 1023 (seeded small_seed) k
    × IsMatrix (generate_matrix small_numbers small_seed)
generate_matrix-first_example = generate_matrix-first small_numbers small_seed
