-- ===== src/Algo/KHeavyHash/Matrix/Full.antt =====
-- Which matrix sources/algo/kheavyhash/matrix.cpp makes of a seed.
use native.Mathlib.Nat.{mod-lt}
use luminousminer.Prelude.{
  ℕ, zero, suc, ◌*◌, ◌/◌, ◌<◌, ◌≤◌, ◌≡◌, ◌≢◌, ◌⊎◌, refl, sym, subst, ap, ◌∙◌, inl, inr, List, [],
  ◌∷◌, ◌++◌, length, length-append, replicate, ℕ_discrete, arith,
}
use luminousminer.Algo.KHeavyHash.Matrix.{
  matrix_dim, Xoshiro, seeded, next, nibbles, rand_row, rand_rows, rand_matrix_no_rank_check,
  Doubles, compute_rank, attempt, generate_matrix,
}

-- Numbers below 16.
abbrev pub AllNibbles : List ℕ → Type 0
AllNibbles [] = Unit {0}
AllNibbles (x ∷ xs) = (x < 16) × AllNibbles xs

abbrev pub IsRow : List ℕ → Type 0
IsRow row = (length row ≡ matrix_dim) × AllNibbles row

abbrev pub AllRows : List (List ℕ) → Type 0
AllRows [] = Unit {0}
AllRows (row ∷ rows) = IsRow row × AllRows rows

-- A square of nibbles.
abbrev pub IsMatrix : List (List ℕ) → Type 0
IsMatrix m = (length m ≡ matrix_dim) × AllRows m

AllNibbles-append : (xs ys : List ℕ) → AllNibbles xs → AllNibbles ys → AllNibbles (xs ++ ys)
AllNibbles-append [] ys h k = k
AllNibbles-append (x ∷ xs) ys h k = (h.0, AllNibbles-append xs ys h.1 k)

nibbles_lem : (n v : ℕ) → (length (nibbles n v) ≡ n) × AllNibbles (nibbles n v)
unfolding nibbles
nibbles_lem zero v = (refl, tt)
nibbles_lem (suc n) v =
    let (size, small) = nibbles_lem n (v / 16) in (ap suc size, (mod-lt v (omega arith), small))

rand_row_lem :
    (n : ℕ) (g : Xoshiro) → (length (rand_row n g).0 ≡ n * 16) × AllNibbles (rand_row n g).0
unfolding rand_row
rand_row_lem zero g = (omega arith, tt)
rand_row_lem (suc n) g =
    let here = nibbles_lem 16 (next g).0 in
    let rest = rand_row_lem n (next g).1 in
    (
      omega
          (arith, length-append (nibbles 16 (next g).0) (rand_row n (next g).1).0, here.0, rest.0),
      AllNibbles-append (nibbles 16 (next g).0) _ here.1 rest.1,
    )

rand_rows_lem : (n : ℕ) (g : Xoshiro) → (length (rand_rows n g).0 ≡ n) × AllRows (rand_rows n g).0
unfolding rand_rows
rand_rows_lem zero g = (refl, tt)
rand_rows_lem (suc n) g =
    let here = rand_row_lem 4 g in
    let rest = rand_rows_lem n (rand_row 4 g).1 in
    (ap suc rest.0, ((here.0 ∙ omega arith, here.1), rest.1))

rand_matrix_no_rank_check-IsMatrix : (g : Xoshiro) → IsMatrix (rand_matrix_no_rank_check g).0
unfolding rand_matrix_no_rank_check
rand_matrix_no_rank_check-IsMatrix g = rand_rows_lem matrix_dim g

-- The matrices that the random numbers give, one after the other.
pub candidate : ℕ → Xoshiro → List (List ℕ)
candidate zero g = (rand_matrix_no_rank_check g).0
candidate (suc k) g = candidate k (rand_matrix_no_rank_check g).1

candidate-IsMatrix : (k : ℕ) (g : Xoshiro) → IsMatrix (candidate k g)
unfolding candidate
candidate-IsMatrix zero g = rand_matrix_no_rank_check-IsMatrix g
candidate-IsMatrix (suc k) g = candidate-IsMatrix k (rand_matrix_no_rank_check g).1

module _ (D : Doubles) where
  -- Among n + 1 candidates, the first of full rank, or else the last.
  abbrev pub IsChosen : ℕ → Xoshiro → ℕ → Type 0
  IsChosen n g k =
      (k ≤ n)
      × ((i : ℕ) → i < k → compute_rank D (candidate i g) ≢ matrix_dim)
      × ((compute_rank D (candidate k g) ≡ matrix_dim) ⊎ (k ≡ n))

  attempt_full :
      (n : ℕ) (g : Xoshiro) (mat : List (List ℕ))
      → compute_rank D (candidate zero g) ≡ matrix_dim
      → attempt D (suc n) g mat ≡ candidate zero g
  unfolding attempt candidate
  attempt_full n g mat full = ground arith

  attempt_next :
      (n : ℕ) (g : Xoshiro) (mat : List (List ℕ))
      → compute_rank D (candidate zero g) ≢ matrix_dim
      → attempt D (suc n) g mat ≡ attempt D n (rand_matrix_no_rank_check g).1 (candidate zero g)
  unfolding attempt candidate
  attempt_next n g mat other = ground arith

  attempt_last : (g : Xoshiro) (mat : List (List ℕ)) → attempt D zero g mat ≡ mat
  unfolding attempt
  attempt_last g mat = refl

  -- The first candidate is passed over.
  shifted :
      (n k : ℕ) (g : Xoshiro)
      → compute_rank D (candidate zero g) ≢ matrix_dim
      → IsChosen n (rand_matrix_no_rank_check g).1 k
      → IsChosen (suc n) g (suc k)
  unfolding candidate
  shifted n k g other (le, before, fate) = (omega arith, before_too, fate_too fate)
    where
      before_too : (i : ℕ) → i < suc k → compute_rank D (candidate i g) ≢ matrix_dim
      before_too zero lt = other
      before_too (suc i) lt = before i (omega arith)

      fate_too :
          (compute_rank D (candidate k (rand_matrix_no_rank_check g).1) ≡ matrix_dim) ⊎ (k ≡ n)
          → (compute_rank D (candidate (suc k) g) ≡ matrix_dim) ⊎ (suc k ≡ suc n)
      fate_too (inl full) = inl full
      fate_too (inr end) = inr (ap suc end)

  attempt_lem :
      (n : ℕ) (g : Xoshiro) (mat : List (List ℕ))
      → (k : ℕ) × (attempt D (suc n) g mat ≡ candidate k g) × IsChosen n g k
  unfolding candidate
  attempt_lem zero g mat = elim (ℕ_discrete (compute_rank D (candidate zero g)) matrix_dim) [
    | yes full ↦
        (zero, attempt_full zero g mat full, (omega arith, λ i lt. absurd (omega arith), inl full))
    | no other ↦ (
      zero,
      attempt_next zero g mat other ∙ attempt_last _ _,
      (omega arith, λ i lt. absurd (omega arith), inr refl),
    )
  ]
  attempt_lem (suc n) g mat = elim (ℕ_discrete (compute_rank D (candidate zero g)) matrix_dim) [
    | yes full ↦ (
      zero,
      attempt_full (suc n) g mat full,
      (omega arith, λ i lt. absurd (omega arith), inl full),
    )
    | no other ↦
        let (k, same, chosen) = attempt_lem n (rand_matrix_no_rank_check g).1 (candidate zero g) in
        (suc k, attempt_next (suc n) g mat other ∙ same, shifted n k g other chosen)
  ]

-- For any seed, and whatever rank `computeRank` computes with the given double: the matrix is one of the
-- first 1024 that the random numbers of the seed give, namely the first for which `computeRank` returns
-- 64, or the last where it does so for none; and it is a square of 64 by 64 nibbles.
pub generate_matrix-first :
    (D : Doubles) (seed : List ℕ)
    → (k : ℕ) × (generate_matrix D seed ≡ candidate k (seeded seed))
      × IsChosen D 1023 (seeded seed) k
      × IsMatrix (generate_matrix D seed)
unfolding generate_matrix
generate_matrix-first D seed =
    let (k, same, chosen) =
      attempt_lem D 1023 (seeded seed) (replicate matrix_dim (replicate matrix_dim 0)) in
    (k, same, chosen, subst IsMatrix (sym same) (candidate-IsMatrix k (seeded seed)))
