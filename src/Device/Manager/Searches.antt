-- ===== src/Device/Manager/Searches.antt =====
-- sources/device/device.cpp and device_manager.cpp: the nonces that two devices come to while they search
-- for a job that the manager shared out among them.
use native.Mathlib.Omega.{arith}
use luminousminer.Prelude.{
  ℕ, suc, ◌+◌, ◌*◌, ◌/◌, ◌^◌, ◌≤◌, ◌<◌, ◌≡◌, ◌≢◌, sym, ap, ◌∙◌, Bool, true, ◌||◌, Option, some,
  List, get_elem?, length,
}
use luminousminer.Stratum.JobInfo.{JobInfo}
use luminousminer.Device.Statistical.{Doubles}
use luminousminer.Device.Worker.{Resolver, Occupancy, Device, update, pass}
use luminousminer.Device.Worker.Jobs.{IsSynced, update-IsSynced, update-pending, pass-takes}
use luminousminer.Device.Worker.Scan.{scan, length-scan, scan_launches}
use luminousminer.Device.Manager.{share_out}
use luminousminer.Device.Manager.Ranges.{handed-nonce, fits, device_ranges_disjoint}
use luminousminer.Device.Manager.Handing.{found-lt}

suc_mul : (i b : ℕ) → (suc i) * b ≡ i * b + b
suc_mul i b = grind arith

abbrev nonce_of : Option (Option JobInfo) → ℕ
nonce_of (some (some job)) = job.nonce
nonce_of _ = 0

module _ (D : Doubles) where
  -- A device when a job comes in, after `events` events, with what that job asks for, and how its thread
  -- goes on: the pass that takes the job over, and the times of the passes after it.
  pub record Searcher : Type 0 where
    pub device : Device D
    pub events : ℕ
    pub memory : Bool
    pub constants : Bool
    pub resolver : Resolver
    pub now : ℕ
    pub times : List ℕ

  module _ (config : Occupancy) (n : ℕ) (job : JobInfo) where
    abbrev updated : Searcher → Device D
    updated x = update D x.memory x.constants (share_out n job) x.device

    abbrev pub taken : Searcher → Device D
    taken x = (pass D config x.resolver x.now (updated x)).1

    -- What it launches, pass by pass.
    abbrev pub launches : Searcher → List (Option JobInfo)
    launches x = (scan D config x.resolver x.times (taken x)).0

    abbrev pub batch : Searcher → ℕ
    batch x = (taken x).mining_stats.batch_nonce

    -- The device has a number below `n`, lives, also after it took the job over, and its kernels run; and
    -- its counters are those of fewer than 2^64 events.
    pub record IsSearching (x : Searcher) : Type 0 where
      pub numbered : x.device.id < n
      pub asked : (x.memory || x.constants) ≡ true
      pub synced : IsSynced D x.events x.device
      pub few : x.events + 1 < 2 ^ 64
      pub lives : x.device.alive ≡ true
      pub lives_on : (taken x).alive ≡ true
      pub runs : (j : JobInfo) → x.resolver.execute j ≡ true

    scanned :
        (r : Resolver) (times : List ℕ) (d : Device D) (i : ℕ) (launched : JobInfo)
        → get_elem? (scan D config r times d).0 i ≡ some (some launched)
        → i < length times
    scanned r times d i launched found =
        let below = found-lt (scan D config r times d).0 i _ found in
        omega (arith, below, length-scan D config r times d)

    -- The nonce of a launch whose batch lies within the device's share of the gap.
    launch-nonce :
        (x : Searcher) (i : ℕ) (launched : JobInfo)
        → IsSearching x
        → job.nonce + job.gap_nonce ≤ 2 ^ 64
        → 0 < batch x
        → (suc i) * batch x ≤ job.gap_nonce / n
        → get_elem? (launches x) i ≡ some (some launched)
        → launched.nonce ≡ (updated x).next_job.nonce + i * batch x
    unfolding update
    launch-nonce x i launched s bound some_batch inside found =
        let step = suc_mul i (batch x) in
        let (nothing, equal, took) =
          pass-takes D config x.resolver x.now (x.events + 1) (updated x) s.lives
            (update-IsSynced D x.events x.memory x.constants (share_out n job) x.device s.asked
              s.few s.synced)
            (update-pending D x.events x.memory x.constants (share_out n job) x.device s.few
              s.synced) in
        let start =
          handed-nonce D job n x.device x.memory x.constants 0 s.numbered bound
            (omega (arith, step, inside, some_batch)) in
        let fit = fits job.gap_nonce n x.device.id s.numbered in
        let same = ap (λ (j : JobInfo). j.nonce) took in
        let small : (taken x).current_job.nonce < 2 ^ 64 =
          omega (arith, same, start, fit, step, inside, some_batch) in
        let is =
          scan_launches D config x.resolver x.times (taken x) i s.lives_on equal s.runs small
            (scanned x.resolver x.times (taken x) i launched found) in
        let nonce = ap nonce_of (sym found ∙ is) in
        omega (arith, nonce, same, start, fit, step, inside)

    -- Two devices with different numbers, among whose `n` devices the gap of the pool is shared out, and a
    -- gap that ends at 2 ^ 64 at most: as long as the batches of their launches lie within their shares of
    -- the gap, no nonce is in a batch of both.
    pub searches_disjoint :
        (a b : Searcher) (i j k l : ℕ) (launched_a launched_b : JobInfo)
        → IsSearching a
        → IsSearching b
        → a.device.id ≢ b.device.id
        → job.nonce + job.gap_nonce ≤ 2 ^ 64
        → get_elem? (launches a) i ≡ some (some launched_a)
        → get_elem? (launches b) j ≡ some (some launched_b)
        → (suc i) * batch a ≤ job.gap_nonce / n
        → (suc j) * batch b ≤ job.gap_nonce / n
        → k < batch a
        → l < batch b
        → launched_a.nonce + k ≢ launched_b.nonce + l
    searches_disjoint a b i j k l launched_a launched_b s t differ bound found_a found_b inside_a
          inside_b k_in l_in same =
        let at_a = launch-nonce a i launched_a s bound (omega (arith, k_in)) inside_a found_a in
        let at_b = launch-nonce b j launched_b t bound (omega (arith, l_in)) inside_b found_b in
        device_ranges_disjoint D job n a.device b.device a.memory a.constants b.memory b.constants
          (i * batch a + k) (j * batch b + l) s.numbered t.numbered differ bound
          (omega (arith, suc_mul i (batch a), inside_a, k_in))
          (omega (arith, suc_mul j (batch b), inside_b, l_in)) (omega (arith, at_a, at_b, same))
