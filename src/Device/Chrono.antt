-- ===== src/Device/Chrono.antt =====
-- sources/common/chrono.cpp. A time point is a count of nanoseconds, which the system clock gives:
-- it is an argument of `start` and `stop`.
use luminousminer.Prelude.{ℕ, ◌-◌, ◌/◌, leb, if◌then◌else◌}
use luminousminer.Prelude.Word.{u64, sub64}

pub data ChronoUnit : Type 0 where
  sec ms us ns : ChronoUnit

pub record Chrono : Type 0 where
  pub tm_start : ℕ
  pub tm_end : ℕ

unfoldable pub start : ℕ → Chrono → Chrono
start now c = record c { tm_start = now }

unfoldable pub stop : ℕ → Chrono → Chrono
stop now c = record c { tm_end = now }

abbrev pub nanoseconds : ChronoUnit → ℕ
nanoseconds sec = 1000000000
nanoseconds ms = 1000000
nanoseconds us = 1000
nanoseconds ns = 1

-- `duration_cast` rounds towards zero; a clock that was set back gives a negative count, which the
-- conversion to uint64_t wraps.
unfoldable pub elapsed : ChronoUnit → Chrono → ℕ
elapsed unit c =
    if leb c.tm_start c.tm_end
    then u64 ((c.tm_end - c.tm_start) / nanoseconds unit)
    else sub64 0 (u64 ((c.tm_start - c.tm_end) / nanoseconds unit))
