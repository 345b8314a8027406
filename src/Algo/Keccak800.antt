-- ===== src/Algo/Keccak800.antt =====
-- `keccak_f800` and `keccak(uint32_t*)` of sources/algo/keccak.cpp, which work in place on 25 words.
-- A rotation may be undefined: `none`. The offsets of the step rho are written out up to 62, so the
-- rotation is a parameter here: that of sources/algo/rol.hpp with the meaning of C++, or with the
-- meaning that shifts have on x86, where the count is taken modulo 32.
pub mod Rounds
use Prim.Native.Nat.{bit_and, bit_or, bit_xor}
use luminousminer.Prelude.{
  ℕ, ◌+◌, ◌-◌, ◌*◌, ◌/◌, ◌%◌, ◌^◌, ◌||◌, Option, none, some, List, [], ◌∷◌, map, leb, ◌==◌,
  if◌then◌else◌, get_or, set, take,
}
use luminousminer.Prelude.Word.{u32}

-- `(x << n) | (x >> (32 - n))`; both shifts must be by less than 32.
unfoldable pub rol_u32 : ℕ → ℕ → Option ℕ
rol_u32 x n =
    if n == 0 || leb 32 n then none else some (bit_or (u32 (x * 2 ^ n)) (x / 2 ^ (32 - n)))

unfoldable pub rotate_u32 : ℕ → ℕ → ℕ
rotate_u32 x n = bit_or (u32 (x * 2 ^ n)) (x / 2 ^ (32 - n))

-- What the instructions of x86 make of it.
unfoldable pub rol_masked : ℕ → ℕ → Option ℕ
unfolding rotate_u32
rol_masked x n = some (rotate_u32 x (n % 32))

unfoldable pub not_u32 : ℕ → ℕ
not_u32 x = 2 ^ 32 - 1 - x

abbrev pub f800_constants : List ℕ
f800_constants =
    0x00000001 ∷ 0x00008082 ∷ 0x0000808a ∷ 0x80008000 ∷ 0x0000808b ∷ 0x80000001 ∷ 0x80008081
    ∷ 0x00008009 ∷ 0x0000008a ∷ 0x00000088 ∷ 0x80008009 ∷ 0x8000000a ∷ 0x8000808b ∷ 0x0000008b
    ∷ 0x00008089 ∷ 0x00008003 ∷ 0x00008002 ∷ 0x00000080 ∷ 0x0000800a ∷ 0x8000000a ∷ 0x80008081
    ∷ 0x00008080 ∷ []

abbrev pub rotc : List ℕ
rotc =
    1 ∷ 3 ∷ 6 ∷ 10 ∷ 15 ∷ 21 ∷ 28 ∷ 36 ∷ 45 ∷ 55 ∷ 2 ∷ 14 ∷ 27 ∷ 41 ∷ 56 ∷ 8 ∷ 25 ∷ 43 ∷ 62 ∷ 18
    ∷ 39 ∷ 61 ∷ 20 ∷ 44 ∷ []

abbrev pub piln : List ℕ
piln =
    10 ∷ 7 ∷ 11 ∷ 17 ∷ 18 ∷ 3 ∷ 5 ∷ 16 ∷ 8 ∷ 21 ∷ 24 ∷ 4 ∷ 15 ∷ 23 ∷ 19 ∷ 13 ∷ 12 ∷ 2 ∷ 20 ∷ 14 ∷ 22
    ∷ 9 ∷ 6 ∷ 1 ∷ []

abbrev pub five : List ℕ
five = 0 ∷ 1 ∷ 2 ∷ 3 ∷ 4 ∷ []

abbrev pub rows : List ℕ
rows = 0 ∷ 5 ∷ 10 ∷ 15 ∷ 20 ∷ []

abbrev pub at : List ℕ → ℕ → ℕ
at out i = get_or out i 0

-- `out[i] ^= v`.
abbrev pub xor_at : List ℕ → ℕ → ℕ → List ℕ
xor_at out i v = set out i (bit_xor (at out i) v)

unfoldable pub columns : List ℕ → List ℕ
columns out =
    map
      (λ i.
        bit_xor
          (bit_xor (bit_xor (bit_xor (at out i) (at out (i + 5))) (at out (i + 10)))
            (at out (i + 15)))
          (at out (i + 20)))
      five

unfoldable pub xor_column : ℕ → ℕ → List ℕ → List ℕ → List ℕ
xor_column t i [] out = out
xor_column t i (j ∷ js) out = xor_column t i js (xor_at out (j + i) t)

unfoldable pub chi_row : ℕ → List ℕ → List ℕ → List ℕ → List ℕ
chi_row j bc [] out = out
chi_row j bc (i ∷ is) out =
    chi_row j bc is
      (xor_at out (j + i) (bit_and (not_u32 (at bc ((i + 1) % 5))) (at bc ((i + 2) % 5))))

unfoldable pub chi_rows : List ℕ → List ℕ → List ℕ
unfolding chi_row not_u32
chi_rows [] out = out
chi_rows (j ∷ js) out = chi_rows js (chi_row j (map (λ i. at out (j + i)) five) five out)

abbrev pub bind : Option (List ℕ) → (List ℕ → Option (List ℕ)) → Option (List ℕ)
bind none f = none
bind (some out) f = f out

module _ (rol : ℕ → ℕ → Option ℕ) where
  unfoldable pub theta_xor : List ℕ → List ℕ → List ℕ → Option (List ℕ)
  unfolding xor_column
  theta_xor bc [] out = some out
  theta_xor bc (i ∷ is) out = elim (rol (at bc ((i + 1) % 5)) 1) [
    | none ↦ none
    | some r ↦ theta_xor bc is (xor_column (bit_xor (at bc ((i + 4) % 5)) r) i rows out)
  ]

  -- The chain of the lanes: each is stored, rotated, at the place of the next.
  unfoldable pub rho_pi : ℕ → List ℕ → List ℕ → List ℕ → Option (List ℕ)
  rho_pi t [] rots out = some out
  rho_pi t (j ∷ js) [] out = some out
  rho_pi t (j ∷ js) (n ∷ ns) out = elim (rol t n) [
    | none ↦ none
    | some r ↦ rho_pi (at out j) js ns (set out j r)
  ]

  unfoldable pub keccak_f800 : ℕ → List ℕ → Option (List ℕ)
  unfolding columns theta_xor rho_pi chi_rows
  keccak_f800 rc out = bind (theta_xor (columns out) five out) λ mixed.
      bind (rho_pi (at mixed 1) piln rotc mixed) λ moved. some (xor_at (chi_rows rows moved) 0 rc)

  -- The `for` over the round constants.
  unfoldable pub f800_rounds : List ℕ → List ℕ → Option (List ℕ)
  f800_rounds [] out = some out
  f800_rounds (rc ∷ rest) out = bind (keccak_f800 rc out) (f800_rounds rest)

  -- `keccak(uint32_t*)`: the words of the hash.
  unfoldable pub keccak_800 : List ℕ → Option (List ℕ)
  keccak_800 out = bind (f800_rounds f800_constants out) λ r. some (take 8 r)
