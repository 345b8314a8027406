-- ===== src/Algo/KHeavyHash/Matrix.antt =====
-- sources/algo/kheavyhash/matrix.cpp and xoshiro.hpp: the matrix of a job. The rank is over double, which
-- is a parameter with its operations.
pub mod Full
use Prim.Native.Nat.{bit_or, bit_xor}
use luminousminer.Prelude.{
  ℕ, zero, suc, ◌+◌, ◌-◌, ◌*◌, ◌/◌, ◌%◌, ◌^◌, Bool, true, false, not, ◌&&◌, Option, none, some,
  List, [], ◌∷◌, ◌++◌, map, ◌==◌, if◌then◌else◌, get_or, take, drop, replicate,
}
use luminousminer.Prelude.Word.{u64}

abbrev pub matrix_dim : ℕ
matrix_dim = 64

abbrev pub max_attempts : ℕ
max_attempts = 1024

-- The state of `Xoshiro256pp`.
pub record Xoshiro : Type 0 where
  pub s0 : ℕ
  pub s1 : ℕ
  pub s2 : ℕ
  pub s3 : ℕ

-- `word |= seed[i * 8 + b] << (8 * b)`, of bytes.
unfoldable pub word_of : List ℕ → ℕ
word_of [] = 0
word_of (b ∷ bs) = b + 256 * word_of bs

unfoldable pub seeded : List ℕ → Xoshiro
seeded seed = record {
  s0 = word_of (take 8 seed);
  s1 = word_of (take 8 (drop 8 seed));
  s2 = word_of (take 8 (drop 16 seed));
  s3 = word_of (take 8 (drop 24 seed));
}

abbrev pub rotl : ℕ → ℕ → ℕ
rotl x k = bit_or (u64 (x * 2 ^ k)) (x / 2 ^ (64 - k))

-- The number that a call returns, and the state that it leaves.
unfoldable pub next : Xoshiro → ℕ × Xoshiro
next s =
    let res = u64 (s.s0 + rotl (u64 (s.s0 + s.s3)) 23) in
    let t = u64 (s.s1 * 2 ^ 17) in
    let c = bit_xor s.s2 s.s0 in
    let d = bit_xor s.s3 s.s1 in
    (res, record { s0 = bit_xor s.s0 d; s1 = bit_xor s.s1 c; s2 = bit_xor c t; s3 = rotl d 45 })

-- The nibbles of a number, the lowest first.
unfoldable pub nibbles : ℕ → ℕ → List ℕ
nibbles zero v = []
nibbles (suc n) v = v % 16 ∷ nibbles n (v / 16)

-- A row takes a number for each 16 of its entries.
unfoldable pub rand_row : ℕ → Xoshiro → List ℕ × Xoshiro
rand_row zero g = ([], g)
rand_row (suc n) g =
    let (val, g1) = next g in let (rest, g2) = rand_row n g1 in (nibbles 16 val ++ rest, g2)

unfoldable pub rand_rows : ℕ → Xoshiro → List (List ℕ) × Xoshiro
rand_rows zero g = ([], g)
rand_rows (suc n) g =
    let (row, g1) = rand_row 4 g in let (rest, g2) = rand_rows n g1 in (row ∷ rest, g2)

unfoldable pub rand_matrix_no_rank_check : Xoshiro → List (List ℕ) × Xoshiro
rand_matrix_no_rank_check g = rand_rows matrix_dim g

-- What the elimination takes of double; `is_large x` is `std::abs(x) > 1e-9`.
pub record Doubles : Type 1 where
  pub Double : Type 0
  pub of_entry : ℕ → Double
  pub is_large : Double → Bool
  pub divide : Double → Double → Double
  pub times : Double → Double → Double
  pub minus : Double → Double → Double

module _ (D : Doubles) where
  open D use {Double, of_entry, is_large, divide, times, minus}

  -- A row of `matFloat` with its `rowSelected`.
  pub record Row : Type 0 where
    pub selected : Bool
    pub entries : List Double

  abbrev pub entry : ℕ → List Double → Double
  entry i row = get_or row i (of_entry 0)

  -- `matFloat[j][p] /= matFloat[j][i]` for p > i.
  unfoldable pub scale : ℕ → List Double → List Double
  scale i row = take (suc i) row ++ map (λ x. divide x (entry i row)) (drop (suc i) row)

  unfoldable pub subtract : Double → List Double → List Double → List Double
  subtract c [] pivot = []
  subtract c (x ∷ xs) [] = x ∷ xs
  subtract c (x ∷ xs) (y ∷ ys) = minus x (times y c) ∷ subtract c xs ys

  -- `matFloat[k][p] -= matFloat[j][p] * matFloat[k][i]` for p > i, where the factor is large.
  unfoldable pub reduce : ℕ → List Double → Row → Row
  reduce i pivot row =
      if is_large (entry i row.entries)
      then record row {
        entries =
            take (suc i) row.entries
            ++ subtract (entry i row.entries) (drop (suc i) row.entries) (drop (suc i) pivot);
      }
      else row

  -- The first row that is not selected and has a large entry in the column, with the rows before it, in
  -- reverse, and after it.
  unfoldable pub find_pivot : ℕ → List Row → List Row → Option (List Row × Row × List Row)
  find_pivot i before [] = none
  find_pivot i before (row ∷ rows) =
      let rest = find_pivot i (row ∷ before) rows in
      if not row.selected && is_large (entry i row.entries) then some (before, row, rows) else rest

  unfoldable pub put_back : List Row → List Row → List Row
  put_back [] rows = rows
  put_back (row ∷ before) rows = put_back before (row ∷ rows)

  -- One column of the elimination, with the rank so far.
  unfoldable pub column : ℕ → ℕ × List Row → ℕ × List Row
  column i (rank, rows) = elim (find_pivot i [] rows) [
    | none ↦ (rank, rows)
    | some (before, row, after) ↦
        let pivot = scale i row.entries in
        (
          suc rank,
          put_back (map (reduce i pivot) before)
              (record { selected = true; entries = pivot } ∷ map (reduce i pivot) after),
        )
  ]

  unfoldable pub columns : ℕ → ℕ → ℕ × List Row → ℕ × List Row
  columns zero i state = state
  columns (suc n) i state = columns n (suc i) (column i state)

  unfoldable pub compute_rank : List (List ℕ) → ℕ
  compute_rank matrix =
      let rows = map (λ r. record { selected = false; entries = map of_entry r }) matrix in
      (columns matrix_dim 0 (0, rows)).0

  -- The attempts that remain, and the matrix of the last one.
  unfoldable pub attempt : ℕ → Xoshiro → List (List ℕ) → List (List ℕ)
  attempt zero g mat = mat
  attempt (suc n) g mat =
      let (candidate, g1) = rand_matrix_no_rank_check g in
      let later = attempt n g1 candidate in
      if compute_rank candidate == matrix_dim then candidate else later

  unfoldable pub generate_matrix : List ℕ → List (List ℕ)
  generate_matrix seed =
      attempt max_attempts (seeded seed) (replicate matrix_dim (replicate matrix_dim 0))
