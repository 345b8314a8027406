-- ===== src/Algo/Keccak/Sponge.antt =====
-- `algo::keccak(uint64_t*, uint32_t, uint8_t const*, uint32_t)` of sources/algo/keccak.cpp and the
-- templates of keccak.hpp on a hash. A hash is the list of its bytes, read in words of 8, the low byte
-- first. The loop over whole blocks has the length of the input as fuel.
use native.Mathlib.Omega.{arith}
use Prim.Native.Nat.{bit_xor}
use luminousminer.Prelude.{
  ℕ, zero, suc, ◌+◌, ◌-◌, ◌*◌, ◌/◌, ◌%◌, ◌^◌, ◌<◌, ◌≤◌, ◌≡◌, true, false, List, [], ◌∷◌, ◌++◌, leb,
  leb→le, get_or, set, take, drop, length, length-drop, replicate, Bool-cases, inl, inr,
}
use luminousminer.Algo.Keccak.{keccak_f1600}

abbrev pub le_value : List ℕ → ℕ
le_value [] = 0
le_value (b ∷ bs) = b + 256 * le_value bs

abbrev pub le_bytes : ℕ → ℕ → List ℕ
le_bytes zero v = []
le_bytes (suc n) v = v % 256 ∷ le_bytes n (v / 256)

abbrev pub hash_bytes : List ℕ → List ℕ
hash_bytes [] = []
hash_bytes (w ∷ ws) = le_bytes 8 w ++ hash_bytes ws

-- `state[i] ^= v`.
abbrev pub xor_word : List ℕ → ℕ → ℕ → List ℕ
xor_word state i v = set state i (bit_xor (get_or state i 0) v)

-- The `for` over the words of a block, and the input behind it.
unfoldable pub absorb_words : ℕ → ℕ → List ℕ → List ℕ → List ℕ × List ℕ
absorb_words zero i state input = (state, input)
absorb_words (suc n) i state input =
    absorb_words n (i + 1) (xor_word state i (le_value (take 8 input))) (drop 8 input)

-- `while (size >= blockSize)`.
unfoldable pub absorb : ℕ → ℕ → List ℕ → List ℕ → List ℕ × List ℕ
unfolding absorb_words keccak_f1600
absorb zero block state input = (state, input)
absorb (suc fuel) block state input = elim (leb block (length input)) [
  | true ↦
      let r = absorb_words (block / 8) 0 state input in absorb fuel block (keccak_f1600 r.0) r.1
  | false ↦ (state, input)
]

-- `while (size >= wordSize)`, then the bytes that are left with the padding behind them.
unfoldable pub absorb_rest : ℕ → List ℕ → List ℕ → List ℕ
absorb_rest i state (a ∷ b ∷ c ∷ d ∷ e ∷ f ∷ g ∷ h ∷ rest) =
    absorb_rest (i + 1) (xor_word state i (le_value (a ∷ b ∷ c ∷ d ∷ e ∷ f ∷ g ∷ h ∷ []))) rest
absorb_rest i state rest = xor_word state i (le_value (rest ++ 1 ∷ []))

abbrev pub block_size : ℕ → ℕ
block_size bits = (1600 - bits * 2) / 8

unfoldable pub keccak : ℕ → List ℕ → List ℕ
unfolding absorb absorb_rest keccak_f1600
keccak bits input =
    let block = block_size bits in
    let whole = absorb (length input) block (replicate 25 0) input in
    let padded = xor_word (absorb_rest 0 whole.0 whole.1) (block / 8 - 1) (2 ^ 63) in
    take (bits / 8 / 8) (keccak_f1600 padded)

unfoldable pub keccak256 : List ℕ → List ℕ
unfolding keccak
keccak256 input = hash_bytes (keccak 256 input)

unfoldable pub keccak512 : List ℕ → List ℕ
unfolding keccak
keccak512 input = hash_bytes (keccak 512 input)

length-absorb_words :
    (n i : ℕ) (state input : List ℕ)
    → length (absorb_words n i state input).1 ≡ length input - 8 * n
unfolding absorb_words
length-absorb_words zero i state input = omega arith
length-absorb_words (suc n) i state input =
    let e =
      length-absorb_words n (i + 1) (xor_word state i (le_value (take 8 input))) (drop 8 input) in
    omega (arith, e, length-drop 8 input)

-- The fuel is enough: less than a block is left.
absorb_ends :
    (fuel block : ℕ) (state input : List ℕ)
    → 8 ≤ block
    → length input ≤ fuel
    → length (absorb fuel block state input).1 < block
unfolding absorb
absorb_ends zero block state input h enough = omega (arith, h, enough)
absorb_ends (suc fuel) block state input h enough = elim (Bool-cases (leb block (length input))) [
  | inl more ↦
      let r = absorb_words (block / 8) 0 state input in
      let less = length-absorb_words (block / 8) 0 state input in
      let some_left = leb→le _ _ more in
      rw (more, absorb)
        (absorb_ends fuel block (keccak_f1600 r.0) r.1 h
          (omega (arith, less, some_left, h, enough)))
  | inr done ↦ rw (done, absorb) (ground (arith, done))
]
