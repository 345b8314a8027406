-- ===== src/Algo/Crypto.antt =====
-- sources/algo/crypto/fnv1.cpp and kiss99.cpp: the mixing functions, on uint32_t. `x & 0xffff` is the
-- remainder by 2 ^ 16, and the shifts are a division and a multiplication that wraps.
use Prim.Native.Nat.{bit_xor}
use luminousminer.Prelude.{ℕ, ◌+◌, ◌*◌, ◌/◌, ◌%◌, ◌^◌}
use luminousminer.Prelude.Word.{u32}

abbrev pub fnv1_prime : ℕ
fnv1_prime = 0x01000193

abbrev pub fnv1_offset : ℕ
fnv1_offset = 0x811c9dc5

unfoldable pub fnv1 : ℕ → ℕ → ℕ
fnv1 u v = bit_xor (u32 (u * fnv1_prime)) v

unfoldable pub fnv1a : ℕ → ℕ → ℕ
fnv1a u v = u32 (bit_xor u v * fnv1_prime)

pub record Kiss99Properties : Type 0 where
  pub z : ℕ
  pub w : ℕ
  pub jsr : ℕ
  pub jcong : ℕ

abbrev pub left_xor : ℕ → ℕ → ℕ
left_xor x k = bit_xor x (u32 (x * 2 ^ k))

abbrev pub right_xor : ℕ → ℕ → ℕ
right_xor x k = bit_xor x (x / 2 ^ k)

-- The state that a call leaves.
unfoldable pub kiss99_next : Kiss99Properties → Kiss99Properties
kiss99_next data' = record {
  z = u32 (u32 (36969 * (data'.z % 2 ^ 16)) + data'.z / 2 ^ 16);
  w = u32 (u32 (18000 * (data'.w % 2 ^ 16)) + data'.w / 2 ^ 16);
  jsr = left_xor (right_xor (left_xor data'.jsr 17) 13) 5;
  jcong = u32 (69069 * data'.jcong + 1234567);
}

-- The number that a call returns, from the state that it leaves.
unfoldable pub kiss99_value : Kiss99Properties → ℕ
kiss99_value state =
    let mwc = u32 (u32 (state.z * 2 ^ 16) + state.w) in u32 (bit_xor mwc state.jcong + state.jsr)

unfoldable pub kiss99 : Kiss99Properties → ℕ × Kiss99Properties
unfolding kiss99_next kiss99_value
kiss99 state = let next = kiss99_next state in (kiss99_value next, next)
