-- ===== src/Algo/Ethash/Sizes.antt =====
-- `build` of sources/algo/ethash/ethash.cpp: the sizes of the caches of an epoch, and the epochs that
-- it refuses.
use native.Mathlib.Omega.{arith}
use luminousminer.Prelude.{
  subst, replicate, Bool-cases, inl, inr, ℕ, ◌+◌, ◌*◌, ◌^◌, ◌≤◌, ◌<◌, ◌≡◌, ◌≢◌, refl, sym, ap, ◌∙◌,
  true, false, Option, some, List, ltb, ◌==◌,
}
use luminousminer.Prelude.Int.{ℤ, pos, negsuc, int_eq, to_int32}
use luminousminer.Prelude.Word.{u32, u64}
use luminousminer.Algo.Prime.{largest_prime}
use luminousminer.Algo.Prime.Largest.{IsLargestPrime, largest_prime_lem}
use luminousminer.Algo.Keccak.Sponge.{keccak256, keccak512}
use luminousminer.Algo.Ethash.{
  Hash, DagContext, DagContextShare, DagSettings, upper_bound, epoch_eip, iterate, finish_build,
  copy_context, build, eip1057_max_epoch, seed_rounds,
}
use luminousminer.Algo.Ethash.Cache.{make_cache, build_light_cache-make_cache}

int_eq_refl : (z : ℤ) → int_eq z z ≡ true
int_eq_refl (pos n) = ground arith
int_eq_refl (negsuc n) = ground arith

begun : ℕ → DagContextShare → DagContextShare
begun epoch share = record {
  count = u32 (share.count + 1);
  context = record share.context { epoch = to_int32 epoch };
}

build_refused :
    (settings : DagSettings) (mine : DagContext) (epoch : ℕ) (share : DagContextShare)
    → settings.max_epoch < u32 epoch
    → (settings.max_epoch == eip1057_max_epoch) ≡ false
    → int_eq share.context.epoch (to_int32 epoch) ≡ false
    → build settings mine epoch share ≡ some (mine, begun epoch share)
unfolding build begun
build_refused settings mine epoch share above usual new =
    let test : ltb settings.max_epoch (u32 epoch) ≡ true = ground (arith, above) in
    rw (new, test, usual, build) refl

build_again :
    (settings : DagSettings) (other : DagContext) (epoch : ℕ) (share : DagContextShare)
    → int_eq share.context.epoch (to_int32 epoch) ≡ true
    → build settings other epoch share
      ≡ some (copy_context other share.context, record share { count = u32 (share.count + 1) })
unfolding build
build_again settings other epoch share hit = rw (hit, build) refl

-- For an epoch above the maximum, where the maximum is not that of EIP-1057, and a share of another
-- epoch: the first `build` leaves the caller's context alone, but the share takes the epoch over, so
-- that the second `build` of that epoch is served, with the sizes and the cache of the old one.
pub refused_epoch_is_served :
    (settings : DagSettings) (mine other : DagContext) (epoch : ℕ) (share : DagContextShare)
    → settings.max_epoch < u32 epoch
    → (settings.max_epoch == eip1057_max_epoch) ≡ false
    → int_eq share.context.epoch (to_int32 epoch) ≡ false
    → (next : DagContextShare) × (build settings mine epoch share ≡ some (mine, next))
      × (last : DagContextShare) × (build settings other epoch next
          ≡ some (copy_context other (record share.context { epoch = to_int32 epoch }), last))
unfolding begun
refused_epoch_is_served settings mine other epoch share above usual new = (
  begun epoch share,
  build_refused settings mine epoch share above usual new,
  record (begun epoch share) { count = u32 ((begun epoch share).count + 1) },
  build_again settings other epoch (begun epoch share) (int_eq_refl (to_int32 epoch)),
)

build_sized :
    (settings : DagSettings) (mine : DagContext) (epoch light dag : ℕ) (share : DagContextShare)
    → u32 epoch ≤ settings.max_epoch
    → int_eq share.context.epoch (to_int32 epoch) ≡ false
    → largest_prime
        (upper_bound (epoch_eip settings.max_epoch epoch) settings.light_growth settings.light_init)
      ≡ some light
    → largest_prime
        (upper_bound (epoch_eip settings.max_epoch epoch) settings.dag_growth settings.dag_init)
      ≡ some dag
    → build settings mine epoch share ≡ finish_build settings mine light dag (begun epoch share)
unfolding build begun
build_sized settings mine epoch light dag share within new l d =
    let test : ltb settings.max_epoch (u32 epoch) ≡ false = ground (arith, within) in
    rw (new, test, l, d, build) refl

-- The epoch by which the sizes grow: a maximum of 30000 is that of ECIP-1099, which halves the epoch, and
-- one of 110 that of EIP-1057, where an epoch counts for four.
unfoldable pub IsSizeEpoch : ℕ → ℕ → ℕ → Type 0
IsSizeEpoch max_epoch epoch e =
    (max_epoch ≡ 30000 → (2 * e ≤ epoch) × (epoch < 2 * e + 2))
    × (max_epoch ≡ 110 → e ≡ epoch + epoch + epoch + epoch)
    × (max_epoch ≢ 30000 → max_epoch ≢ 110 → e ≡ epoch)

size_epoch :
    (max_epoch epoch e : ℕ)
    → epoch < 2 ^ 31
    → IsSizeEpoch max_epoch epoch e
    → epoch_eip max_epoch epoch ≡ e
unfolding epoch_eip IsSizeEpoch
size_epoch max_epoch epoch e small (halved, fourfold, same) =
    ground (arith, small, halved, fourfold, same)

-- The context of an epoch, whose sizes grow by the epoch `e`: the numbers of items are the largest primes
-- up to the bounds, the sizes are theirs in bytes, and the cache, where the CPU builds it, is that of the
-- specification.
pub record IsDag (settings : DagSettings) (epoch e : ℕ) (c : DagContext) : Type 0 where
  pub epoch_set : c.epoch ≡ to_int32 epoch
  pub light_prime : IsLargestPrime (e * settings.light_growth + settings.light_init) c.light_items
  pub dag_prime : IsLargestPrime (e * settings.dag_growth + settings.dag_init) c.dag_items
  pub light_bytes : c.light_size ≡ c.light_items * 64
  pub dag_bytes : c.dag_size ≡ c.dag_items * 128
  pub seed : c.hashed_seed ≡ keccak512 (iterate keccak256 epoch (replicate 32 0))
  pub cache :
      settings.build_on_cpu ≡ true
      → c.light_cache ≡ some (make_cache keccak512 c.light_items c.hashed_seed)

sized : ℕ → ℕ → DagContext → Hash → DagContext
sized light dag c seed = record c {
  light_items = light;
  light_size = u64 (light * 64);
  dag_items = dag;
  dag_size = u64 (dag * 128);
  hashed_seed = seed;
}

-- The context that `build` makes, from the point where the numbers of items are found.
finish_build_lem :
    (settings : DagSettings) (mine : DagContext) (light dag : ℕ) (share : DagContextShare)
    → light < 2 ^ 31
    → (c : DagContext) × (cache : Option (List Hash)) × (finish_build settings mine light dag share
        ≡ some (copy_context mine c, record share { context = c }))
      × (c
          ≡ record (sized light dag share.context
              (keccak512 (iterate keccak256 (seed_rounds share.context.epoch) (replicate 32 0)))) {
                light_cache = cache;
              })
      × (settings.build_on_cpu ≡ true → cache ≡ some (make_cache keccak512 light c.hashed_seed))
unfolding finish_build sized copy_context
finish_build_lem settings mine light dag share few =
    let seed = keccak512 (iterate keccak256 (seed_rounds share.context.epoch) (replicate 32 0)) in
    let made = build_light_cache-make_cache keccak512 light seed few in
    let s = sized light dag share.context seed in
    elim (Bool-cases settings.build_on_cpu) [
      | inl cpu ↦
          let cache = some (make_cache keccak512 light seed) in
          (
            record s { light_cache = cache },
            cache,
            rw (cpu, made, finish_build) refl,
            refl,
            λ h. refl,
          )
      | inr gpu ↦ (s, s.light_cache, rw (gpu, finish_build) refl, refl, λ h. cc)
    ]

to_int32_small : (n : ℕ) → n < 2 ^ 31 → to_int32 n ≡ pos n
unfolding to_int32
to_int32_small n h = ground (arith, h)

-- Where the bounds fit 64 bits, nothing wraps.
items_found :
    (e growth init : ℕ)
    → 2 ≤ e * growth + init
    → e * growth + init < 2 ^ 31
    → (p : ℕ) × (largest_prime (upper_bound e growth init) ≡ some p)
      × IsLargestPrime (e * growth + init) p
items_found e growth init two few =
    let (p, found, l) = largest_prime_lem (e * growth + init) two (omega (arith, few)) in
    let same : upper_bound e growth init ≡ e * growth + init = omega (arith, few) in
    (p, ap largest_prime same ∙ found, l)

-- For an epoch up to the maximum and below 2 ^ 31, a share of another epoch, and bounds on the numbers
-- of items from 2 up to below 2 ^ 31, which grow by half of the epoch where the maximum is 30000, by four
-- times the epoch where it is 110, and by the epoch otherwise: `build` succeeds. The numbers of items in
-- the caller's context are the largest primes up to the bounds, the sizes are 64 and 128 times these, the
-- seed is the zero hash hashed as often as the epoch says, and on the CPU the cache is that of the
-- specification of Ethash. The share has the same context and one more user.
pub build-IsDag :
    (settings : DagSettings) (mine : DagContext) (epoch e : ℕ) (share : DagContextShare)
    → epoch ≤ settings.max_epoch
    → epoch < 2 ^ 31
    → int_eq share.context.epoch (to_int32 epoch) ≡ false
    → IsSizeEpoch settings.max_epoch epoch e
    → 2 ≤ e * settings.light_growth + settings.light_init
    → e * settings.light_growth + settings.light_init < 2 ^ 31
    → 2 ≤ e * settings.dag_growth + settings.dag_init
    → e * settings.dag_growth + settings.dag_init < 2 ^ 31
    → (c : DagContext) × (next : DagContextShare) × (build settings mine epoch share
        ≡ some (c, next))
      × IsDag settings epoch e c
      × (next.context ≡ c)
      × (next.count ≡ u32 (share.count + 1))
unfolding sized begun copy_context
build-IsDag settings mine epoch e share within small new sizes l_two l_few d_two d_few =
    let same = size_epoch settings.max_epoch epoch e small sizes in
    let (l, l_found, l_prime) =
      items_found e settings.light_growth settings.light_init l_two l_few in
    let (d, d_found, d_prime) = items_found e settings.dag_growth settings.dag_init d_two d_few in
    let l_small : l < 2 ^ 31 = omega (arith, l_prime.at_most, l_few) in
    let (c, cache, done, is, served) =
      finish_build_lem settings mine l d (begun epoch share) l_small in
    let started =
      build_sized settings mine epoch l d share (omega (arith, within, small)) new
        (ap (λ k. largest_prime (upper_bound k settings.light_growth settings.light_init)) same
          ∙ l_found)
        (ap (λ k. largest_prime (upper_bound k settings.dag_growth settings.dag_init)) same
          ∙ d_found) in
    let rounds = ap seed_rounds (to_int32_small epoch small) in
    let l_is = ap (λ x. x.light_items) is in
    let d_is = ap (λ x. x.dag_items) is in
    (
      c,
      record (begun epoch share) { context = c },
      started ∙ done,
      record {
        epoch_set = ap (λ x. x.epoch) is;
        light_prime = subst (IsLargestPrime _) (sym l_is) l_prime;
        dag_prime = subst (IsLargestPrime _) (sym d_is) d_prime;
        light_bytes = ap (λ x. x.light_size) is ∙ omega (arith, l_is, l_small);
        dag_bytes = ap (λ x. x.dag_size) is ∙ omega (arith, d_is, d_prime.at_most, d_few);
        seed =
            ap (λ x. x.hashed_seed) is
            ∙ ap (λ k. keccak512 (iterate keccak256 k (replicate 32 0))) rounds;
        cache = λ cpu.
            ap (λ x. x.light_cache) is
            ∙ served cpu
            ∙ ap (λ k. some (make_cache keccak512 k c.hashed_seed)) (sym l_is);
      },
      refl,
      refl,
    )
