-- ===== src/Device/Worker/Interleaved.antt =====
-- sources/device/device.cpp: an `update` on the thread of the pool while `updateJob` runs on that of the
-- device, after `updateJob` has read the flags and the counters and before it copies the job.
use native.Mathlib.Omega.{arith}
use luminousminer.Prelude.{ℕ, ◌≤◌, ◌<◌, ◌≡◌, refl, Bool, true, false}
use luminousminer.Stratum.JobInfo.{JobInfo}
use luminousminer.Device.AtomicCounter
use luminousminer.Device.AtomicCounter.{AtomicCounter}
use luminousminer.Device.Statistical.{Doubles}
use luminousminer.Device.Worker.{Device}

-- What was taken over is behind what was counted, where `flag` says so.
abbrev IsBehind : Bool → ℕ → AtomicCounter → Type 0
IsBehind flag seen c = (c.last ≤ seen) × (flag ≡ true → seen < c.current)

behind-pending :
    (seen : ℕ) (c : AtomicCounter) → IsBehind true seen c → AtomicCounter.is_equal c ≡ false
unfolding AtomicCounter.is_equal
behind-pending seen c (a, b) = let above = b refl in ground (arith, a, above)

module _ (D : Doubles) (constants memory : Bool) (start : Device D) where
  -- The counters are behind by an update that asked for the constants and the memory.
  HasPending : Device D → Type 0
  HasPending d =
      IsBehind true start.job.current d.job
      × IsBehind constants start.constant.current d.constant
      × IsBehind memory start.memory.current d.memory
