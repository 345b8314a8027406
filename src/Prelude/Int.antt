-- ===== src/Prelude/Int.antt =====
-- Signed machine integers that the program only stores and compares.
use Prim.Native.Nat.{ℕ, ◌-◌, ◌^◌}
use mathlib.Core.Bool.{Bool, false}
use luminousminer.Prelude.Tests.{ltb, ◌==◌, if◌then◌else◌}
use luminousminer.Prelude.Word.{u32}

-- `negsuc n` is -(n + 1).
pub data ℤ : Type 0 where
  pos : ℕ → ℤ
  negsuc : ℕ → ℤ

abbrev pub int_eq : ℤ → ℤ → Bool
int_eq (pos m) (pos n) = m == n
int_eq (pos m) (negsuc n) = false
int_eq (negsuc m) (pos n) = false
int_eq (negsuc m) (negsuc n) = m == n

-- A conversion to int32_t.
unfoldable pub to_int32 : ℕ → ℤ
to_int32 n = let w = u32 n in if ltb w (2 ^ 31) then pos w else negsuc (2 ^ 32 - 1 - w)
