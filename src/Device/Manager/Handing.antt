-- ===== src/Device/Manager/Handing.antt =====
-- sources/device/device_manager.cpp: `onUpdateJob` and `updateDevice`.
use native.Mathlib.Omega.{arith}
use mathlib.Core.List.{map}
use luminousminer.Prelude.{
  ℕ, zero, suc, ◌<◌, ◌≡◌, Bool, true, not, ◌&&◌, some, List, [], ◌∷◌, length, get_elem?,
}
use luminousminer.Prelude.Int.{int_eq}
use luminousminer.Algo.HashUtils.{is_equal}
use luminousminer.Stratum.JobInfo.{JobInfo}
use luminousminer.Device.Statistical.{Doubles}
use luminousminer.Device.Manager.{Profile, Manager, update_device, share_out}

pub found-lt : {A : Type 0} (xs : List A) (i : ℕ) (a : A) → get_elem? xs i ≡ some a → i < length xs
found-lt [] i a h = ground (arith, h)
found-lt (x ∷ xs) zero a h = omega arith
found-lt (x ∷ xs) (suc i) a h = let below = found-lt xs i a h in omega (arith, below)

module _ (D : Doubles) where
  -- The job is kept with the gap shared out, and handed to every device of the pool, which is asked for
  -- its memory exactly when the epoch is not the same, and for its constants exactly when a header is not.
  pub IsKept : Bool → Bool → Profile → ℕ → JobInfo → Manager D → Manager D → Type 0
  IsKept same_epoch same_headers profile uuid job before after =
      (get_elem? after.job_infos uuid ≡ some (share_out (length before.devices) job))
      × (after.devices
          ≡ map
              (update_device D profile uuid (not same_epoch) (not same_headers)
                (share_out (length before.devices) job))
              before.devices)

  -- A job with the same epoch and headers changes nothing, and any other is kept and handed.
  abbrev IsHandedBy : Bool → Bool → Bool → Profile → ℕ → JobInfo → Manager D → Manager D → Type 0
  IsHandedBy epoch header blob profile uuid job before after =
      ((epoch ≡ true) × (header ≡ true) × (blob ≡ true) → after ≡ before)
      × (¬ ((epoch ≡ true) × (header ≡ true) × (blob ≡ true))
          → IsKept epoch (header && blob) profile uuid job before after)

  -- That of `onUpdateJob`, where the manager keeps the job `old` of the pool.
  pub IsHanded : Profile → ℕ → JobInfo → JobInfo → Manager D → Manager D → Type 0
  IsHanded profile uuid old job before after =
      IsHandedBy (int_eq old.epoch job.epoch) (is_equal old.header_hash job.header_hash)
        (is_equal old.header_blob job.header_blob) profile uuid job before after
