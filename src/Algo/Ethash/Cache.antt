-- ===== src/Algo/Ethash/Cache.antt =====
-- `buildLightCache` of sources/algo/ethash/ethash.cpp against the definition of the light cache in the
-- Ethash specification.
use native.Mathlib.Nat.{mod-lt}
use native.Mathlib.Omega.{arith}
use luminousminer.Prelude.{
  tabulate, length-tabulate, ℕ, zero, suc, ◌+◌, ◌-◌, ◌%◌, ◌^◌, ◌<◌, ◌≡◌, refl, ap, ◌∙◌, false, some,
  List, [], ◌∷◌, ◌==◌, get_elem?, get_or, set, length, length-set,
}
use luminousminer.Prelude.Word.{u32, sub32}
use luminousminer.Algo.Epoch.{word0}
use luminousminer.Algo.Ethash.{
  Hash, hash_xor, fill_items, mix_items, mix_rounds, build_light_cache, iterate,
}

module _ (keccak : Hash → Hash) where
  -- The item that the specification puts at i of a cache of n items.
  mixed : ℕ → List Hash → ℕ → Hash
  mixed n cache i =
      let v = word0 (get_or cache i []) % n in
      keccak (hash_xor (get_or cache v []) (get_or cache ((i + n - 1) % n) []))

  -- The items from i on, one after the other, each put in before the next is computed.
  round_from : ℕ → ℕ → ℕ → List Hash → List Hash
  unfolding mixed
  round_from n zero i cache = cache
  round_from n (suc left) i cache = round_from n left (i + 1) (set cache i (mixed n cache i))

  rounds : ℕ → ℕ → List Hash → List Hash
  unfolding round_from
  rounds n zero cache = cache
  rounds n (suc k) cache = rounds n k (round_from n n 0 cache)

  -- Item i of the first cache is the seed, hashed i times; three rounds mix it.
  unfoldable pub make_cache : ℕ → Hash → List Hash
  unfolding rounds iterate tabulate
  make_cache n seed = rounds n 3 (tabulate n (λ i. iterate keccak i seed))

  fill_items_lem :
      (n : ℕ) (item : Hash) → fill_items keccak n item ≡ tabulate n (λ i. iterate keccak i item)
  unfolding fill_items tabulate iterate
  fill_items_lem zero item = refl
  fill_items_lem (suc n) item = ap (λ r. item ∷ r) (fill_items_lem n (keccak item))

  get_elem?-get_or :
      (cache : List Hash) (i : ℕ) → i < length cache → get_elem? cache i ≡ some (get_or cache i [])
  get_elem?-get_or [] i h = elim h [ ]
  get_elem?-get_or (x ∷ xs) zero h = refl
  get_elem?-get_or (x ∷ xs) (suc i) h = get_elem?-get_or xs i (omega arith)

  -- The index of the item before, round the end, as the source computes it on uint32_t.
  index_before : (n i : ℕ) → i < n → n < 2 ^ 31 → u32 (n + sub32 (u32 i) 1) % n ≡ (i + n - 1) % n
  index_before n zero h few =
      let e : u32 (n + sub32 (u32 0) 1) ≡ 0 + n - 1 = omega (arith, h, few) in ap (λ k. k % n) e
  index_before n (suc i) h few =
      let e : u32 (n + sub32 (u32 (suc i)) 1) ≡ suc i + n - 1 = omega (arith, h, few) in
      ap (λ k. k % n) e

  mix_items_step :
      (n left i : ℕ) (cache : List Hash)
      → length cache ≡ n
      → i < n
      → n < 2 ^ 31
      → mix_items keccak n (suc left) i cache
        ≡ mix_items keccak n left (i + 1) (set cache i (mixed n cache i))
  unfolding mix_items mixed
  mix_items_step n left i cache size inside few =
      let old = get_elem?-get_or cache i (omega (arith, size, inside)) in
      let v = word0 (get_or cache i []) % n in
      let first =
        get_elem?-get_or cache v
          (omega (arith, size, mod-lt (word0 (get_or cache i [])) {m = n} (omega arith))) in
      let before = index_before n i inside few in
      let second =
        get_elem?-get_or cache ((i + n - 1) % n)
          (omega (arith, size, mod-lt (i + n - 1) {m = n} (omega arith))) in
      let positive : (n == 0) ≡ false = ground (arith, inside) in
      rw (old, positive, first, ap (get_elem? cache) before ∙ second, mix_items) refl

  mix_items_end : (n i : ℕ) (cache : List Hash) → mix_items keccak n 0 i cache ≡ some cache
  unfolding mix_items
  mix_items_end n i cache = refl

  length-round_from :
      (n left i : ℕ) (cache : List Hash) → length (round_from n left i cache) ≡ length cache
  unfolding round_from
  length-round_from n zero i cache = refl
  length-round_from n (suc left) i cache =
      length-round_from n left (i + 1) (set cache i (mixed n cache i))
      ∙ length-set cache i (mixed n cache i)

  mix_items_lem :
      (n left i : ℕ) (cache : List Hash)
      → length cache ≡ n
      → i + left ≡ n
      → n < 2 ^ 31
      → mix_items keccak n left i cache ≡ some (round_from n left i cache)
  unfolding round_from
  mix_items_lem n zero i cache size inside few = mix_items_end n i cache
  mix_items_lem n (suc left) i cache size inside few =
      mix_items_step n left i cache size (omega (arith, inside)) few
      ∙ mix_items_lem n left (i + 1) (set cache i (mixed n cache i))
          (length-set cache i (mixed n cache i) ∙ size) (omega (arith, inside)) few

  mix_rounds_lem :
      (k n : ℕ) (cache : List Hash)
      → length cache ≡ n
      → n < 2 ^ 31
      → mix_rounds keccak k n cache ≡ some (rounds n k cache)
  unfolding mix_rounds rounds
  mix_rounds_lem zero n cache size few = refl
  mix_rounds_lem (suc k) n cache size few =
      let same : u32 n ≡ n = omega (arith, few) in
      let once = mix_items_lem n n 0 cache size (omega arith) few in
      rw (same, once, mix_rounds)
        (mix_rounds_lem k n (round_from n n 0 cache) (length-round_from n n 0 cache ∙ size) few)

-- For fewer than 2 ^ 31 items, and whatever the hash function and the seed: `buildLightCache` stays
-- inside of its array, and its result is the light cache of the specification of Ethash.
pub build_light_cache-make_cache :
    (keccak : Hash → Hash) (items : ℕ) (seed : Hash)
    → items < 2 ^ 31
    → build_light_cache keccak items seed ≡ some (make_cache keccak items seed)
unfolding build_light_cache make_cache
build_light_cache-make_cache keccak items seed few =
    ap (mix_rounds keccak 3 items) (fill_items_lem keccak items seed)
    ∙ mix_rounds_lem keccak 3 items (tabulate items (λ i. iterate keccak i seed))
        (length-tabulate items _) few
