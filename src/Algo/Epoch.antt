-- ===== src/Algo/Epoch.antt =====
-- `ContextGenerator::findEpoch` of sources/algo/ethash/ethash.cpp, with its thread-local cache as
-- explicit state. `algo::keccak` is a parameter. The epoch is an int32_t in the source; -1 is `none`.
pub mod Sound
use luminousminer.Prelude.{
  ℕ, zero, suc, ◌+◌, ◌*◌, Bool, List, [], ◌∷◌, Option, none, some, ◌==◌, if◌then◌else◌, replicate,
}

-- `word32[0]` of a hash: its first four bytes, little-endian.
abbrev pub word0 : List ℕ → ℕ
word0 [] = 0
word0 (a ∷ []) = a
word0 (a ∷ b ∷ []) = a + b * 256
word0 (a ∷ b ∷ c ∷ []) = a + b * 256 + c * 65536
word0 (a ∷ b ∷ c ∷ d ∷ rest) = a + b * 256 + c * 65536 + d * 16777216

pub record EpochCache : Type 0 where
  pub epoch : ℕ
  pub seed : List ℕ

abbrev pub empty_cache : EpochCache
empty_cache = record { epoch = 0; seed = replicate 32 0 }

module _ (keccak : List ℕ → List ℕ) where
  -- The loop from epoch `i`, with `left` rounds to go.
  unfoldable pub search_epoch : ℕ → ℕ → ℕ → List ℕ → EpochCache → Option ℕ × EpochCache
  search_epoch zero i seedpart hash cache = (none, cache)
  search_epoch (suc left) i seedpart hash cache =
      let rest = search_epoch left (i + 1) seedpart (keccak hash) cache in
      if word0 hash == seedpart then (some i, record { epoch = i; seed = hash }) else rest

  unfoldable pub find_epoch : List ℕ → ℕ → EpochCache → Option ℕ × EpochCache
  find_epoch seed_hash max_epoch cache =
      let seedpart = word0 seed_hash in
      let next = keccak cache.seed in
      if seedpart == word0 cache.seed
      then (some cache.epoch, cache)
      else (if word0 next == seedpart
          then (some (cache.epoch + 1), record { epoch = cache.epoch + 1; seed = next })
          else search_epoch (suc max_epoch) 0 seedpart (replicate 32 0) cache)
