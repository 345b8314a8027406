-- ===== src/Algo/Keccak800/Rounds.antt =====
-- `keccak_f800` of sources/algo/keccak.cpp against the reference permutation.
use luminousminer.Prelude.{
  tabulate, tabulated, ℕ, ◌≡◌, refl, ap, subst, none, some, List, [], ◌∷◌, length, take, get_or,
}
use luminousminer.Algo.Keccak.Reference.{reference, reference_round}
use luminousminer.Algo.Keccak800.{
  rol_u32, rotate_u32, rol_masked, not_u32, f800_constants, bind, keccak_f800, f800_rounds,
  keccak_800,
}

table_agrees :
    (rc : ℕ) (f : ℕ → ℕ)
    → keccak_f800 rol_masked rc (tabulate 25 f)
      ≡ some (reference_round 32 rotate_u32 not_u32 rc (tabulate 25 f))
unfolding keccak_f800 rol_masked reference_round tabulate
table_agrees rc f = refl

round_agrees :
    (rc : ℕ) (out : List ℕ)
    → length out ≡ 25
    → keccak_f800 rol_masked rc out ≡ some (reference_round 32 rotate_u32 not_u32 rc out)
round_agrees rc out h =
    subst (λ xs. keccak_f800 rol_masked rc xs ≡ some (reference_round 32 rotate_u32 not_u32 rc xs))
      (tabulated 25 out 0 h) (table_agrees rc (λ i. get_or out i 0))

length-reference_round :
    (rc : ℕ) (out : List ℕ) → length (reference_round 32 rotate_u32 not_u32 rc out) ≡ 25
unfolding reference_round tabulate
length-reference_round rc out = refl

rounds_agree :
    (rcs out : List ℕ)
    → length out ≡ 25
    → f800_rounds rol_masked rcs out ≡ some (reference 32 rotate_u32 not_u32 rcs out)
unfolding f800_rounds reference
rounds_agree [] out h = refl
rounds_agree (rc ∷ rest) out h = rw (round_agrees rc out h) (
    rounds_agree rest (reference_round 32 rotate_u32 not_u32 rc out)
      (length-reference_round rc out))

-- For any state of 25 words, and with the rotations that x86 gives: the in-place rounds of
-- `keccak(uint32_t*)` give the first 8 words of what the 22 rounds of the reference give.
pub keccak_800-reference :
    (out : List ℕ)
    → length out ≡ 25
    → keccak_800 rol_masked out ≡ some (take 8 (reference 32 rotate_u32 not_u32 f800_constants out))
unfolding keccak_800
keccak_800-reference out h =
    ap (λ o. bind o (λ r. some (take 8 r))) (rounds_agree f800_constants out h)

round_undefined : (rc : ℕ) (out : List ℕ) → keccak_f800 rol_u32 rc out ≡ none
unfolding keccak_f800 rol_u32
round_undefined rc out = refl

rounds_undefined : (rc : ℕ) (rest out : List ℕ) → f800_rounds rol_u32 (rc ∷ rest) out ≡ none
unfolding f800_rounds
rounds_undefined rc rest out = ap (λ o. bind o (f800_rounds rol_u32 rest)) (round_undefined rc out)

-- Whatever the state: with the shifts of C++, `keccak(uint32_t*)` is undefined, since its first round
-- already rotates a word of 32 bits by 36.
pub keccak_800_undefined : (out : List ℕ) → keccak_800 rol_u32 out ≡ none
unfolding keccak_800
keccak_800_undefined out = ap (λ o. bind o (λ r. some (take 8 r))) (rounds_undefined 1 _ out)
