-- ===== src/Tests/Kernels.antt =====
-- The kernels of sources/algo, and the contexts of ethash/ethash.cpp, at concrete inputs.
use native.Mathlib.Omega.{arith}
use luminousminer.Prelude.{ℕ, ◌+◌, ◌≤◌, ◌<◌, ◌≡◌, refl, false, [], ◌∷◌, none, some, take, replicate}
use luminousminer.Prelude.Int.{pos, int_eq, to_int32}
use luminousminer.Prelude.Word.{u32}
use luminousminer.Algo.Prime.{largest_prime}
use luminousminer.Algo.Prime.Largest.{IsLargestPrime, largest_prime_lem}
use luminousminer.Prelude.Text.{codes}
use luminousminer.Algo.Autolykos.{compute_period}
use luminousminer.Algo.Autolykos.Period.{compute_period-le}
use luminousminer.Algo.HashUtils.Decimal.{
  decimal_to_hash, to_little_endian, add_digits, add_digit, carry, times_ten, carry_all, pair_up,
}
use luminousminer.Algo.ProgPow.{Round, initialize_round}
use luminousminer.Algo.ProgPow.Registers.{IsOrder, initialize_round-IsOrder}
use luminousminer.Algo.Keccak.{
  not_u64, f1600_round, f1600_rounds, keccak_f1600, rol_u64, f1600_constants,
}
use luminousminer.Algo.Keccak.Reference.{reference}
use luminousminer.Algo.Keccak.F1600.{keccak_f1600-reference}
use luminousminer.Algo.Keccak.Sponge.{absorb_words, absorb, absorb_rest, keccak, keccak256}
use luminousminer.Algo.Keccak800.{
  rol_u32, rotate_u32, rol_masked, not_u32, f800_constants, keccak_800,
}
use luminousminer.Algo.Keccak800.Rounds.{keccak_800-reference, keccak_800_undefined}
use luminousminer.Algo.Ethash.{
  DagContext, DagContextShare, DagSettings, build_light_cache, copy_context, build, free,
}
use luminousminer.Algo.Ethash.Cache.{make_cache, build_light_cache-make_cache}
use luminousminer.Algo.Ethash.Sizes.{IsDag, IsSizeEpoch, build-IsDag, refused_epoch_is_served}
use luminousminer.Algo.Ethash.Shares.{Uses, IsShared, empty_share, Uses-IsShared}

largest_prime_lem_example : (p : ℕ) × (largest_prime 20 ≡ some p) × IsLargestPrime 20 p
largest_prime_lem_example = largest_prime_lem 20 (omega arith) (omega arith)

initialize_round-IsOrder_example :
    (r : Round) × (initialize_round 7 32 ≡ some r) × IsOrder 32 r.dst × IsOrder 32 r.src
initialize_round-IsOrder_example = initialize_round-IsOrder 7 32 (omega arith) (omega arith)

keccak_f1600-reference_example :
    keccak_f1600 (replicate 25 1) ≡ reference 64 rol_u64 not_u64 f1600_constants (replicate 25 1)
keccak_f1600-reference_example = keccak_f1600-reference (replicate 25 1) refl

keccak_800-reference_example :
    keccak_800 rol_masked (replicate 25 1)
    ≡ some (take 8 (reference 32 rotate_u32 not_u32 f800_constants (replicate 25 1)))
keccak_800-reference_example = keccak_800-reference (replicate 25 1) refl

keccak_800_undefined_example : keccak_800 rol_u32 (replicate 25 1) ≡ none
keccak_800_undefined_example = keccak_800_undefined (replicate 25 1)

build_light_cache-make_cache_example :
    build_light_cache (λ h. h) 3 (1 ∷ 2 ∷ []) ≡ some (make_cache (λ h. h) 3 (1 ∷ 2 ∷ []))
build_light_cache-make_cache_example =
    build_light_cache-make_cache (λ h. h) 3 (1 ∷ 2 ∷ []) (omega arith)

abbrev small_dag : DagSettings
small_dag = record {
  max_epoch = 3;
  dag_growth = 5;
  dag_init = 20;
  light_growth = 2;
  light_init = 9;
  build_on_cpu = false;
}

small_dag_new : int_eq empty_share.context.epoch (to_int32 2) ≡ false
unfolding to_int32
small_dag_new = refl

small_dag_IsSizeEpoch : IsSizeEpoch 3 2 2
unfolding IsSizeEpoch
small_dag_IsSizeEpoch =
    (λ h. absurd (omega (arith, h)), λ h. absurd (omega (arith, h)), λ h k. refl)

build-IsDag_example :
    (c : DagContext) × (next : DagContextShare) × (build small_dag empty_share.context 2 empty_share
      ≡ some (c, next))
    × IsDag small_dag 2 2 c
    × (next.context ≡ c)
    × (next.count ≡ u32 (empty_share.count + 1))
build-IsDag_example =
    build-IsDag small_dag empty_share.context 2 2 empty_share (omega arith) (omega arith)
      small_dag_new small_dag_IsSizeEpoch (omega arith) (omega arith) (omega arith) (omega arith)

abbrev refused : DagContext
refused = record empty_share.context { epoch = pos 5 }

refused_new : int_eq empty_share.context.epoch (to_int32 5) ≡ false
unfolding to_int32
refused_new = refl

refused_epoch_is_served_example :
    (next : DagContextShare) × (build small_dag refused 5 empty_share ≡ some (refused, next))
    × (last : DagContextShare) × (build small_dag empty_share.context 5 next
        ≡ some (
          copy_context empty_share.context (record empty_share.context { epoch = to_int32 5 }),
          last,
        ))
refused_epoch_is_served_example =
    refused_epoch_is_served small_dag refused empty_share.context 5 empty_share (omega arith) refl
      refused_new

-- Two devices build the context of an epoch that is refused.
abbrev share_of_two : DagContextShare
share_of_two = record { count = 2; context = refused }

two_users : Uses 2 share_of_two
unfolding build to_int32 copy_context
two_users =
    Uses.built {s = record { count = 1; context = refused }} small_dag empty_share.context refused 5
      (Uses.built small_dag empty_share.context empty_share.context 5 Uses.fresh (omega arith) refl)
      (omega arith) refl

Uses-IsShared_example :
    IsShared 2 share_of_two × (1 < 2 → (free share_of_two).context ≡ share_of_two.context)
Uses-IsShared_example = Uses-IsShared two_users

-- The published hash of the empty text begins so.
keccak256_empty : take 8 (keccak256 []) ≡ 197 ∷ 210 ∷ 70 ∷ 1 ∷ 134 ∷ 247 ∷ 35 ∷ 60 ∷ []
unfolding keccak256 keccak absorb_words absorb absorb_rest keccak_f1600 rol_u64 not_u64 f1600_rounds
    f1600_round
keccak256_empty = refl

compute_period-le_example :
    (67108864 ≤ compute_period 614400)
    × (compute_period 614400 ≤ compute_period 700000)
    × (compute_period 700000 ≤ 2143944600)
compute_period-le_example = compute_period-le 614400 700000 (omega arith) (omega arith)

decimal_boundary : to_little_endian (decimal_to_hash (codes "65537")) ≡ 1 ∷ 0 ∷ 1 ∷ replicate 61 0
unfolding decimal_to_hash to_little_endian add_digits add_digit carry times_ten carry_all pair_up
decimal_boundary = refl
