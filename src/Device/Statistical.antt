-- ===== src/Device/Statistical.antt =====
-- sources/statistical/statistical.cpp. The time is an argument of `start`, `stop` and `reset`, and
-- the arithmetic on double is a parameter.
use luminousminer.Prelude.{ℕ, ◌+◌, ◌*◌, Bool, if◌then◌else◌}
use luminousminer.Prelude.Word.{u32, u64}
use luminousminer.Device.Chrono
use luminousminer.Device.Chrono.{ChronoUnit, sec, ms, us, ns, Chrono}

pub record Doubles : Type 1 where
  pub Double : Type 0
  pub of_count : ℕ → Double
  pub times : Double → Double → Double
  pub over : Double → Double → Double
  -- `0.0 < x`.
  pub is_positive : Double → Bool

pub record ShareInfo : Type 0 where
  pub total : ℕ
  pub invalid : ℕ
  pub valid : ℕ

module _ (D : Doubles) where
  open D use {Double, of_count, times, over, is_positive}

  pub record Statistical : Type 0 where
    pub chrono_unit : ChronoUnit
    pub chrono_time : Double
    pub chrono : Chrono
    pub shares : ShareInfo
    pub batch_nonce : ℕ
    pub elapsed : ℕ
    pub hashrates : Double
    pub kernel_executed : ℕ

  unfoldable pub set_chrono_unit : ChronoUnit → Statistical → Statistical
  set_chrono_unit unit s = record s {
    chrono_unit = unit;
    chrono_time = of_count (elim unit [ sec ↦ 1 | ms ↦ 1000 | us ↦ 1000000 | ns ↦ 1000000000 ]);
  }

  unfoldable pub start : ℕ → Statistical → Statistical
  start now s = record s { chrono = Chrono.start now s.chrono }

  unfoldable pub stop : ℕ → Statistical → Statistical
  stop now s = record s { chrono = Chrono.stop now s.chrono }

  unfoldable pub reset : ℕ → Statistical → Statistical
  unfolding start
  reset now s = start now (record s { kernel_executed = 0 })

  unfoldable pub increase_kernel_executed : Statistical → Statistical
  increase_kernel_executed s = record s { kernel_executed = u32 (s.kernel_executed + 1) }

  unfoldable pub set_batch_nonce : ℕ → Statistical → Statistical
  set_batch_nonce n s = record s { batch_nonce = n }

  unfoldable pub update_hashrate : Statistical → Statistical
  update_hashrate s =
      let reading = Chrono.elapsed s.chrono_unit s.chrono in
      let diff_time = over s.chrono_time (of_count reading) in
      let total_nonce = u64 (s.batch_nonce * s.kernel_executed) in
      let values = times (of_count total_nonce) diff_time in
      record s { elapsed = reading; hashrates = if is_positive values then values else s.hashrates }

  unfoldable pub reset_hashrate : Statistical → Statistical
  reset_hashrate s = record s { kernel_executed = 0; hashrates = of_count 0 }
