-- ===== src/Device/Manager.antt =====
-- sources/device/device_manager.cpp: the jobs of the pools on their way to the devices, and the
-- replies of the pools on their way to the devices' counts. Each handler is one step: it runs on the
-- thread of the pool, `onUpdateJob` under a mutex.
pub mod Handing
pub mod Ranges
pub mod Searches
pub mod Shares
use mathlib.Core.List.{map}
use luminousminer.Prelude.{
  ℕ, ◌+◌, ◌*◌, ◌/◌, ◌%◌, ◌^◌, Bool, true, false, not, ◌&&◌, ◌||◌, Option, none, some, List, [], ◌∷◌,
  ◌==◌, if◌then◌else◌, length, get_elem?, set, replicate,
}
use luminousminer.Prelude.Int.{int_eq}
use luminousminer.Prelude.Word.{u32}
use luminousminer.Algo.HashUtils.{is_equal}
use luminousminer.Stratum.JobInfo.{JobInfo, empty_job, copy}
use luminousminer.Stratum.Base.{overcom_nonce}
use luminousminer.Device.Statistical.{Doubles}
use luminousminer.Device.Worker.{Device, update, increase_share, clean_job}

pub data Profile : Type 0 where
  standard smart_mining : Profile

abbrev pub max_stratums : ℕ
max_stratums = 100

-- `jobInfo.gapNonce /= devices.size()`.
unfoldable pub share_out : ℕ → JobInfo → JobInfo
share_out n job = record job { gap_nonce = job.gap_nonce / n }

module _ (D : Doubles) where
  -- A device may be a null pointer.
  pub record Manager : Type 0 where
    pub job_infos : List JobInfo
    pub devices : List (Option (Device D))

  -- The jobs of `run`: all clean.
  unfoldable pub run : Manager → Manager
  unfolding copy clean_job
  run m = record m {
    job_infos = map (λ job. copy job empty_job) m.job_infos;
    devices = map (λ o. elim o [ none ↦ none | some d ↦ some (clean_job D d) ]) m.devices;
  }

  -- A device works for a pool when its stratum has that number; with smart mining, all do.
  unfoldable pub works_for : Profile → ℕ → Device D → Bool
  works_for smart_mining uuid d = true
  works_for standard uuid d = elim d.stratum [ none ↦ false | some u ↦ u == uuid ]

  unfoldable pub update_device :
      Profile → ℕ → Bool → Bool → JobInfo → Option (Device D) → Option (Device D)
  unfolding works_for update
  update_device profile uuid memory constants job none = none
  update_device profile uuid memory constants job (some d) =
      if works_for profile uuid d then some (update D memory constants job d) else some d

  -- `none` is undefined behaviour: a number beyond the array, or a division by no devices.
  unfoldable pub on_update_job : Profile → ℕ → JobInfo → Manager → Option Manager
  unfolding copy update_device share_out is_equal
  on_update_job profile uuid new_job m = elim (get_elem? m.job_infos uuid) [
    | none ↦ none
    | some job ↦
        let same_epoch = int_eq job.epoch new_job.epoch in
        let same_header = is_equal job.header_hash new_job.header_hash in
        let same_blob = is_equal job.header_blob new_job.header_blob in
        let next = share_out (length m.devices) (copy job new_job) in
        if same_epoch && same_header && same_blob
        then some m
        else if length m.devices == 0
        then none
        else some (record m {
          job_infos = set m.job_infos uuid next;
          devices =
              map
                (update_device profile uuid (not same_epoch) (not same_header || not same_blob)
                  next)
                m.devices;
        })
  ]

  abbrev pub share_id : Device D → ℕ
  share_id d = u32 (u32 (d.id + 1) * overcom_nonce)

  -- The first device of the pool with the number of the request counts the share.
  unfoldable pub on_share_status :
      Profile → Bool → ℕ → ℕ → List (Option (Device D)) → List (Option (Device D))
  unfolding works_for increase_share
  on_share_status profile valid request uuid [] = []
  on_share_status profile valid request uuid (none ∷ ds) =
      none ∷ on_share_status profile valid request uuid ds
  on_share_status profile valid request uuid (some d ∷ ds) =
      let rest = on_share_status profile valid request uuid ds in
      if works_for profile uuid d && share_id d == request
      then some (increase_share D valid d) ∷ ds
      else some d ∷ rest
