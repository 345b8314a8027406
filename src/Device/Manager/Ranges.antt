-- ===== src/Device/Manager/Ranges.antt =====
-- sources/device/device.cpp and device_manager.cpp: the nonces that the devices of a pool search.
-- `onUpdateJob` divides the gap of the pool by the number of the devices, and `Device::update` moves
-- the nonce by as many gaps as the number of the device.
use native.Mathlib.Nat.{mul-le-mul_left, mul-div-le, mul-suc}
use native.Mathlib.Omega.{arith}
use luminousminer.Prelude.{ℕ, ◌+◌, ◌*◌, ◌/◌, ◌^◌, ◌≤◌, ◌<◌, ◌≡◌, ◌≢◌, Bool, dec_lt}
use luminousminer.Prelude.Word.{u64}
use luminousminer.Stratum.JobInfo.{JobInfo, copy}
use luminousminer.Device.Statistical.{Doubles}
use luminousminer.Device.Worker.{Device, update}
use luminousminer.Device.Manager.{share_out}

-- The range of a device ends within the gap of the pool.
pub fits : (gap n id : ℕ) → id < n → gap / n * id + gap / n ≤ gap
fits gap n id h =
    let below = mul-le-mul_left (gap / n) h in
    let whole = mul-div-le gap n in
    let next = mul-suc (gap / n) id in omega (arith, below, whole, next)

ordered : (g a b : ℕ) → a < b → g * a + g ≤ g * b
ordered g a b h = omega (arith, mul-le-mul_left g h, mul-suc g a)

unwrapped : (nonce offset : ℕ) → nonce + offset < 2 ^ 64 → u64 (nonce + u64 offset) ≡ nonce + offset
unwrapped nonce offset small = omega arith

module _ (D : Doubles) where
  -- Where a device starts, while the gap of the pool stays below 2^64.
  pub handed-nonce :
      (job : JobInfo) (n : ℕ) (d : Device D) (memory constants : Bool) (k : ℕ)
      → d.id < n
      → job.nonce + job.gap_nonce ≤ 2 ^ 64
      → k < job.gap_nonce / n
      → (update D memory constants (share_out n job) d).next_job.nonce
        ≡ job.nonce + job.gap_nonce / n * d.id
  unfolding update share_out copy
  handed-nonce job n d memory constants k id_bound bound inside =
      let f = fits job.gap_nonce n d.id id_bound in
      unwrapped job.nonce (job.gap_nonce / n * d.id) (omega (arith, f))

  -- For a device with a number below that of the devices, and a gap of the pool that ends at 2 ^ 64
  -- at most: the nonces from the device's start on, as many as its share of the gap, lie in the
  -- gap.
  pub device_range_inside :
      (job : JobInfo) (n : ℕ) (d : Device D) (memory constants : Bool) (k : ℕ)
      → d.id < n
      → job.nonce + job.gap_nonce ≤ 2 ^ 64
      → k < job.gap_nonce / n
      → (job.nonce ≤ (update D memory constants (share_out n job) d).next_job.nonce + k)
        × ((update D memory constants (share_out n job) d).next_job.nonce + k
            < job.nonce + job.gap_nonce)
  device_range_inside job n d memory constants k id_bound bound inside =
      let e = handed-nonce job n d memory constants k id_bound bound inside in
      let f = fits job.gap_nonce n d.id id_bound in (omega (arith, e), omega (arith, e, f))

  -- For two devices of different numbers below that of the devices, and a gap that ends at 2 ^ 64 at
  -- most: the shares of the gap that they are handed are disjoint.
  pub device_ranges_disjoint :
      (job : JobInfo) (n : ℕ) (a b : Device D) (memory_a constants_a memory_b constants_b : Bool)
      (k l : ℕ)
      → a.id < n
      → b.id < n
      → a.id ≢ b.id
      → job.nonce + job.gap_nonce ≤ 2 ^ 64
      → k < job.gap_nonce / n
      → l < job.gap_nonce / n
      → (update D memory_a constants_a (share_out n job) a).next_job.nonce + k
        ≢ (update D memory_b constants_b (share_out n job) b).next_job.nonce + l
  device_ranges_disjoint job n a b ma ca mb cb k l a_bound b_bound differ bound k_bound l_bound
        same =
      let g = job.gap_nonce / n in
      let at_a = handed-nonce job n a ma ca k a_bound bound k_bound in
      let at_b = handed-nonce job n b mb cb l b_bound bound l_bound in
      elim (dec_lt a.id b.id) [
        | yes below ↦ omega (arith, at_a, at_b, same, ordered g a.id b.id below)
        | no above ↦ omega (arith, at_a, at_b, same, ordered g b.id a.id (omega arith))
      ]
