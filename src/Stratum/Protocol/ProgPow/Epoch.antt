-- ===== src/Stratum/Protocol/ProgPow/Epoch.antt =====
-- `deriveEpoch` of sources/stratum/progpow.cpp and firopow.cpp, and the numbers of the variants.
use luminousminer.Prelude.{ℕ, ◌/◌, Bool, true, false, ◌&&◌, none, some, ltb, if◌then◌else◌}
use luminousminer.Prelude.Int.{ℤ, pos, negsuc, int_eq, to_int32}
use luminousminer.Algo.Epoch.{find_epoch}
use luminousminer.Stratum.JobInfo.{JobInfo}
use luminousminer.Stratum.Host.{Host}
use luminousminer.Stratum.Session.{M, ◌>>=◌, ◌>>◌, get, session, modify}

pub record Variant : Type 0 where
  pub max_period : ℕ
  pub max_epoch_length : ℕ
  -- Whether the seed goes before the number of the block.
  pub prefers_seed : Bool

abbrev pub progpow : Variant
progpow = record { max_period = 50; max_epoch_length = 7500; prefers_seed = false }

abbrev pub progpow_z : Variant
progpow_z = record { max_period = 50; max_epoch_length = 30000; prefers_seed = false }

abbrev pub progpow_quai : Variant
progpow_quai = record { max_period = 10; max_epoch_length = 388800; prefers_seed = false }

abbrev pub kawpow : Variant
kawpow = record { max_period = 3; max_epoch_length = 7500; prefers_seed = false }

abbrev pub meowpow : Variant
meowpow = record { max_period = 6; max_epoch_length = 7500; prefers_seed = false }

abbrev pub evrprogpow : Variant
evrprogpow = record { max_period = 3; max_epoch_length = 12000; prefers_seed = false }

abbrev pub firopow : Variant
firopow = record { max_period = 1; max_epoch_length = 1300; prefers_seed = true }

-- The field `maxEthashEpoch`, which no variant changes.
abbrev pub max_ethash_epoch : ℕ
max_ethash_epoch = 30000

abbrev pub epoch_of_block : Variant → JobInfo → ℤ
unfolding to_int32
epoch_of_block variant job = to_int32 (job.block_number / variant.max_epoch_length)

module _ (H : Host) where
  open H use {Value}

  unfoldable pub epoch_of_seed : M Value ℤ
  epoch_of_seed = do
    s ← session
    let (found, cache) = find_epoch H.keccak s.job_info.seed_hash max_ethash_epoch s.epoch_cache
    modify (λ s. record s { epoch_cache = cache })
    get (some (elim found [ none ↦ negsuc 0 | some e ↦ pos e ]))

  unfoldable pub derive_epoch : Variant → M Value ℤ
  unfolding epoch_of_seed
  derive_epoch variant =
      if variant.prefers_seed
      then (do
        e ← epoch_of_seed
        s ← session
        get (
            some (
              if int_eq e (negsuc 0) && ltb 0 s.job_info.block_number
              then epoch_of_block variant s.job_info
              else e)))
      else (do
        s ← session
        if ltb 0 s.job_info.block_number
            then get (some (epoch_of_block variant s.job_info))
            else epoch_of_seed)
