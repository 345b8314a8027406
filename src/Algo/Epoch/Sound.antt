-- ===== src/Algo/Epoch/Sound.antt =====
-- The epoch that `findEpoch` returns is the one whose seed the pool sent.
use native.Mathlib.Numerals.{add-one}
use luminousminer.Prelude.{
  ℕ, zero, suc, ◌+◌, ◌≡◌, refl, ap, ◌∙◌, sym, inl, inr, List, Option, none, some, ◌==◌, ==_iff,
  Bool-cases, replicate,
}
use luminousminer.Algo.Epoch.{EpochCache, word0, search_epoch, find_epoch}

module _ (keccak : List ℕ → List ℕ) where
  -- The seed of an epoch: keccak, as often as the epoch says, of 32 zero bytes.
  abbrev pub seed_of : ℕ → List ℕ
  seed_of zero = replicate 32 0
  seed_of (suc n) = keccak (seed_of n)

  -- The cache holds an epoch with its seed.
  abbrev pub IsCache : EpochCache → Type 0
  IsCache c = c.seed ≡ seed_of c.epoch

  -- What is found is an epoch with the seed's first word; the cache then holds its seed.
  abbrev pub Found : List ℕ → Option ℕ × EpochCache → Type 0
  Found seed_hash (none, c) = IsCache c
  Found seed_hash (some e, c) = IsCache c × (c.epoch ≡ e) × (word0 (seed_of e) ≡ word0 seed_hash)

  search_epoch-Found :
      (left i : ℕ) (seed_hash hash : List ℕ) (cache : EpochCache)
      → IsCache cache
      → hash ≡ seed_of i
      → Found seed_hash (search_epoch keccak left i (word0 seed_hash) hash cache)
  unfolding search_epoch
  search_epoch-Found zero i seed_hash hash cache v e = v
  search_epoch-Found (suc left) i seed_hash hash cache v e =
      elim (Bool-cases (word0 hash == word0 seed_hash)) [
        | inl hit ↦ rw hit (e, refl, ap word0 (sym e) ∙ (==_iff _ _).0 hit)
        | inr miss ↦ rw miss (
            search_epoch-Found left (i + 1) seed_hash (keccak hash) cache v
              (ap keccak e ∙ sym (ap seed_of (add-one i))))
      ]

  -- With a cache that holds an epoch and its seed, `findEpoch` returns an epoch whose seed begins
  -- with the same word as the given one, or none, and the cache again holds an epoch and its seed.
  pub find_epoch-Found :
      (seed_hash : List ℕ) (max_epoch : ℕ) (cache : EpochCache)
      → IsCache cache
      → Found seed_hash (find_epoch keccak seed_hash max_epoch cache)
  unfolding find_epoch
  find_epoch-Found seed_hash max_epoch cache v =
      elim (Bool-cases (word0 seed_hash == word0 cache.seed)) [
        | inl hit ↦ rw hit (v, refl, ap word0 (sym v) ∙ sym ((==_iff _ _).0 hit))
        | inr miss ↦ rw miss (elim (Bool-cases (word0 (keccak cache.seed) == word0 seed_hash)) [
          | inl hit ↦
              let next : keccak cache.seed ≡ seed_of (cache.epoch + 1) =
                ap keccak v ∙ sym (ap seed_of (add-one cache.epoch)) in
              rw hit (next, refl, ap word0 (sym next) ∙ (==_iff _ _).0 hit)
          | inr other ↦
              rw other
                (search_epoch-Found (suc max_epoch) 0 seed_hash (replicate 32 0) cache v refl)
        ])
      ]
