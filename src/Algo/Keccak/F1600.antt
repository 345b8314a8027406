-- ===== src/Algo/Keccak/F1600.antt =====
-- `keccakF1600` of sources/algo/keccak.hpp against the reference permutation.
use native.Mathlib.Omega.{arith}
use luminousminer.Prelude.{
  tabulate, tabulated, ℕ, zero, suc, ◌*◌, ◌≡◌, refl, sym, ap, ◌∙◌, List, [], ◌∷◌, length,
}
use luminousminer.Algo.Keccak.{
  rol_u64, not_u64, Lanes, load_lanes, store_lanes, f1600_round, f1600_constants, f1600_rounds,
  keccak_f1600,
}
use luminousminer.Algo.Keccak.Reference.{reference, reference_round}

round_agrees :
    (rc : ℕ) (xs : List ℕ)
    → store_lanes (f1600_round rc (load_lanes xs)) ≡ reference_round 64 rol_u64 not_u64 rc xs
unfolding store_lanes load_lanes f1600_round reference_round
round_agrees rc xs = refl

load-store : (s : Lanes) → load_lanes (store_lanes s) ≡ s
unfolding load_lanes store_lanes
load-store s = refl

store-load : (xs : List ℕ) → length xs ≡ 25 → store_lanes (load_lanes xs) ≡ xs
unfolding store_lanes load_lanes tabulate
store-load xs h = tabulated 25 xs 0 h

-- Two turns of the reference for each turn of the loop.
rounds_agree :
    (k : ℕ) (rcs : List ℕ) (s : Lanes)
    → length rcs ≡ 2 * k
    → store_lanes (f1600_rounds rcs s) ≡ reference 64 rol_u64 not_u64 rcs (store_lanes s)
unfolding f1600_rounds reference
rounds_agree k [] s h = refl
rounds_agree k (rc ∷ []) s h = absurd (omega (arith, h))
rounds_agree zero (rc ∷ rc' ∷ rest) s h = absurd (omega (arith, h))
rounds_agree (suc k) (rc ∷ rc' ∷ rest) s h =
    let first = round_agrees rc (store_lanes s) in
    let second = round_agrees rc' (store_lanes (f1600_round rc s)) in
    rounds_agree k rest (f1600_round rc' (f1600_round rc s)) (omega (arith, h))
    ∙ ap (reference 64 rol_u64 not_u64 rest) (
        ap (λ t. store_lanes (f1600_round rc' t)) (sym (load-store (f1600_round rc s)))
        ∙ second
        ∙ ap (reference_round 64 rol_u64 not_u64 rc')
            (ap (λ t. store_lanes (f1600_round rc t)) (sym (load-store s)) ∙ first))

-- For any state of 25 lanes: the unrolled `keccakF1600` computes what the 24 rounds of the reference,
-- each of the steps theta, rho, pi, chi and iota, compute.
pub keccak_f1600-reference :
    (state : List ℕ)
    → length state ≡ 25
    → keccak_f1600 state ≡ reference 64 rol_u64 not_u64 f1600_constants state
unfolding keccak_f1600
keccak_f1600-reference state h =
    rounds_agree 12 f1600_constants (load_lanes state) refl
    ∙ ap (reference 64 rol_u64 not_u64 f1600_constants) (store-load state h)
