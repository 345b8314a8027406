-- ===== src/Device/AtomicCounter.antt =====
-- sources/common/atomic_counter.hpp at uint64_t. A memory order has no counterpart: the model's
-- steps are sequentially consistent, which is the default order of the source.
use luminousminer.Prelude.{ℕ, ◌+◌, Bool, ◌==◌}
use luminousminer.Prelude.Word.{u64, sub64}

pub record AtomicCounter : Type 0 where
  pub current : ℕ
  pub last : ℕ

abbrev pub new : ℕ → AtomicCounter
new n = record { current = n; last = n }

unfoldable pub is_equal : AtomicCounter → Bool
is_equal c = c.last == c.current

unfoldable pub add : ℕ → AtomicCounter → AtomicCounter
add n c = record c { current = u64 (c.current + n) }

pub sub : ℕ → AtomicCounter → AtomicCounter
sub n c = record c { current = sub64 c.current n }

unfoldable pub store : ℕ → AtomicCounter → AtomicCounter
store n c = record c { current = n }

unfoldable pub update : ℕ → AtomicCounter → AtomicCounter
update n c = record c { last = n }
