-- ===== src/Algo/Ethash.antt =====
-- `ContextGenerator` of sources/algo/ethash/ethash.cpp but for `findEpoch` (Algo/Epoch): the context of a
-- DAG that the devices with the same algorithm share. `contexts` has one share for each algorithm, and a
-- call touches the share of its own, so the operations take that share. The block behind `data` is
-- given by its content, the light cache; its identity and a failing allocation are not modelled. `none`
-- is undefined behaviour: an index out of bounds or a remainder by 0; or a prime that is not found.
pub mod Cache
pub mod Sizes
pub mod Shares
use Prim.Native.Nat.{bit_xor}
use luminousminer.Prelude.{
  ℕ, zero, suc, ◌+◌, ◌-◌, ◌*◌, ◌/◌, ◌%◌, ◌^◌, Bool, true, false, not, ◌&&◌, Option, none, some,
  List, [], ◌∷◌, ltb, ◌==◌, if◌then◌else◌, get_elem?, set, replicate,
}
use luminousminer.Prelude.Int.{ℤ, pos, negsuc, int_eq, to_int32}
use luminousminer.Prelude.Word.{u32, u64, sub32}
use luminousminer.Algo.Epoch.{word0}
use luminousminer.Algo.Prime.{largest_prime}
use luminousminer.Algo.Keccak.Sponge.{keccak256, keccak512}

abbrev pub eip1099_max_epoch : ℕ
eip1099_max_epoch = 30000

abbrev pub eip1057_max_epoch : ℕ
eip1057_max_epoch = 110

abbrev pub Hash : Type 0
Hash = List ℕ

pub record DagContext : Type 0 where
  pub light_cache : Option (List Hash)
  pub epoch : ℤ
  pub light_items : ℕ
  pub light_size : ℕ
  pub dag_items : ℕ
  pub dag_size : ℕ
  pub hashed_seed : Hash

pub record DagContextShare : Type 0 where
  pub count : ℕ
  pub context : DagContext

-- `algo::hashXor`, which goes by words: the same as by bytes.
unfoldable pub hash_xor : Hash → Hash → Hash
hash_xor [] ys = []
hash_xor (x ∷ xs) [] = []
hash_xor (x ∷ xs) (y ∷ ys) = bit_xor x y ∷ hash_xor xs ys

module _ (keccak : Hash → Hash) where
  -- The loop that fills the cache.
  unfoldable pub fill_items : ℕ → Hash → List Hash
  fill_items zero item = []
  fill_items (suc n) item = item ∷ fill_items n (keccak item)

  -- A round from item i on, with `left` items to go; `n` is `numberItemu32`.
  unfoldable pub mix_items : ℕ → ℕ → ℕ → List Hash → Option (List Hash)
  mix_items n zero i cache = some cache
  mix_items n (suc left) i cache = elim (get_elem? cache i) [
    | none ↦ none
    | some old ↦
        let first = word0 old % n in
        let second = u32 (n + sub32 (u32 i) 1) % n in
        elim (n == 0) [
          | true ↦ none
          | false ↦ elim (get_elem? cache first) [
            | none ↦ none
            | some f ↦ elim (get_elem? cache second) [
              | none ↦ none
              | some s ↦ mix_items n left (i + 1) (set cache i (keccak (hash_xor f s)))
            ]
          ]
        ]
  ]

  unfoldable pub mix_rounds : ℕ → ℕ → List Hash → Option (List Hash)
  mix_rounds zero items cache = some cache
  mix_rounds (suc rounds) items cache = elim (mix_items (u32 items) items 0 cache) [
    | none ↦ none
    | some next ↦ mix_rounds rounds items next
  ]

  unfoldable pub build_light_cache : ℕ → Hash → Option (List Hash)
  build_light_cache items seed = mix_rounds 3 items (fill_items items seed)

unfoldable pub iterate : (Hash → Hash) → ℕ → Hash → Hash
iterate f zero h = h
iterate f (suc n) h = iterate f n (f h)

-- The number of rounds of the loop over an int32_t.
abbrev pub seed_rounds : ℤ → ℕ
seed_rounds (pos n) = n
seed_rounds (negsuc n) = 0

-- The arguments of `build` but for the algorithm, the epoch and the context.
pub record DagSettings : Type 0 where
  pub max_epoch : ℕ
  pub dag_growth : ℕ
  pub dag_init : ℕ
  pub light_growth : ℕ
  pub light_init : ℕ
  pub build_on_cpu : Bool

unfoldable pub epoch_eip : ℕ → ℕ → ℕ
epoch_eip max_epoch epoch =
    if max_epoch == eip1099_max_epoch
    then epoch / 2
    else if max_epoch == eip1057_max_epoch
    then u64 (epoch * 4)
    else epoch

abbrev pub upper_bound : ℕ → ℕ → ℕ → ℕ
upper_bound epoch growth init = u64 (u64 (epoch * growth) + init)

-- `copyContext`: what a device gets.
unfoldable pub copy_context : DagContext → DagContext → DagContext
copy_context context local = record context {
  epoch = local.epoch;
  light_items = local.light_items;
  light_size = local.light_size;
  dag_items = local.dag_items;
  dag_size = local.dag_size;
  light_cache = local.light_cache;
  hashed_seed = local.hashed_seed;
}

-- From the sizes on, with the numbers of the items.
unfoldable pub finish_build :
    DagSettings → DagContext → ℕ → ℕ → DagContextShare → Option (DagContext × DagContextShare)
finish_build settings context light dag share =
    let seed = keccak512 (iterate keccak256 (seed_rounds share.context.epoch) (replicate 32 0)) in
    let sized = record share.context {
      light_items = light;
      light_size = u64 (light * 64);
      dag_items = dag;
      dag_size = u64 (dag * 128);
      hashed_seed = seed;
    } in
    elim settings.build_on_cpu [
      | false ↦ some (copy_context context sized, record share { context = sized })
      | true ↦ elim (build_light_cache keccak512 light seed) [
        | none ↦ none
        | some cache ↦
            let built = record sized { light_cache = some cache } in
            some (copy_context context built, record share { context = built })
      ]
    ]

-- The context of the caller and the share after the call.
unfoldable pub build :
    DagSettings → DagContext → ℕ → DagContextShare → Option (DagContext × DagContextShare)
build settings context epoch share0 =
    let share = record share0 { count = u32 (share0.count + 1) } in
    if int_eq share.context.epoch (to_int32 epoch)
    then some (copy_context context share.context, share)
    else (let begun = record share { context = record share.context { epoch = to_int32 epoch } } in
        let e = epoch_eip settings.max_epoch epoch in
        let light = largest_prime (upper_bound e settings.light_growth settings.light_init) in
        let dag = largest_prime (upper_bound e settings.dag_growth settings.dag_init) in
        if ltb settings.max_epoch (u32 epoch) && not (settings.max_epoch == eip1057_max_epoch)
        then some (context, begun)
        else elim light [
          | none ↦ none
          | some l ↦ elim dag [ none ↦ none | some d ↦ finish_build settings context l d begun ]
        ])

-- `free`, which the caller calls once for each of its builds.
unfoldable pub free : DagContextShare → DagContextShare
free share =
    let less = sub32 share.count 1 in
    if less == 0
    then record share {
      count = less;
      context = record share.context { light_cache = none; epoch = negsuc 0 };
    }
    else record share { count = less }
