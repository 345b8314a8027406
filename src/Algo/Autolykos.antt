-- ===== src/Algo/Autolykos.antt =====
-- sources/algo/autolykos/autolykos.cpp: the size of the table of Autolykos at a height.
pub mod Period
use luminousminer.Prelude.{ℕ, zero, suc, ◌+◌, ◌*◌, ◌/◌, leb, if◌then◌else◌}
use luminousminer.Prelude.Word.{u32, sub32}

abbrev pub block_begin : ℕ
block_begin = 614400

abbrev pub block_end : ℕ
block_end = 4198400

abbrev pub epoch_min : ℕ
epoch_min = 67108864

abbrev pub epoch_max : ℕ
epoch_max = 2143944600

abbrev pub epoch_period : ℕ
epoch_period = 51200

-- The `for`, on the number of rounds that are left.
unfoldable pub grow : ℕ → ℕ → ℕ
grow zero period = period
grow (suc n) period = grow n (u32 (period / 100 * 105))

-- Below the first block the difference wraps.
unfoldable pub compute_period : ℕ → ℕ
unfolding grow
compute_period block_number =
    if leb block_end block_number
    then epoch_max
    else grow (u32 (sub32 block_number block_begin / epoch_period + 1)) epoch_min
