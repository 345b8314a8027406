-- ===== src/Tests/Algo.antt =====
-- sources/algo and sources/stratum/job_info.cpp at concrete inputs.
use native.Mathlib.Omega.{arith}
use Prim.Native.Nat.{min}
use luminousminer.Prelude.{
  ℕ, ◌+◌, ◌/◌, ◌*◌, ◌-◌, ◌%◌, ◌^◌, ◌≤◌, ◌<◌, ◌≡◌, refl, List, [], ◌∷◌, ◌++◌, some, replicate,
}
use luminousminer.Prelude.Text.{codes, hex_digit}
use luminousminer.Prelude.Text.Hex.{IsHex}
use luminousminer.Algo.AlgoType.{progpowquai, to_string, to_enum, to_enum-to_string}
use luminousminer.Algo.FastMod.{FastDivisor, init_fast_mod, fast_mod}
use luminousminer.Algo.FastMod.Exact.{fast_mod_remainder}
use luminousminer.Algo.KHeavyHash.StratumMath.{target_of_divisor}
use luminousminer.Algo.KHeavyHash.StratumMath.Division.{le_bytes, target_of_divisor-value}
use luminousminer.Stratum.ExtraNonce.{set_extra_nonce}
use luminousminer.Stratum.ExtraNonce.Prefix.{set_extra_nonce-prefix, nonce-in-share}
use luminousminer.Tests.Concrete.{small_job}

to_enum-to_string_example : to_enum (to_string progpowquai) ≡ progpowquai
to_enum-to_string_example = to_enum-to_string progpowquai

fast_mod_remainder_example :
    (f : FastDivisor) × (init_fast_mod 7 ≡ some f) × (fast_mod 200 f 100 ≡ some (100 % 7))
fast_mod_remainder_example =
    fast_mod_remainder 200 7 100 (omega arith) (omega arith) (omega arith) (omega arith)

abbrev two_bytes : List ℕ
two_bytes = replicate 30 0 ++ 0x1f ∷ 0x2e ∷ []

abbrev cut_hash : List ℕ
cut_hash = replicate 126 0 ++ 0x1f ∷ 0x2e ∷ []

target_of_divisor-value_example :
    le_bytes (target_of_divisor 65536) ≡ (2 ^ 224 - 1) * 2 ^ 16 / min 65536 (2 ^ 32 - 1)
target_of_divisor-value_example = target_of_divisor-value 65536 (omega arith)

pool_nonce-IsHex : IsHex (codes "a1b2")
unfolding hex_digit
pool_nonce-IsHex = ((10, refl), ((1, refl), ((11, refl), ((2, refl), tt))))

small_gap : 77 ≤ (set_extra_nonce (codes "a1b2") small_job).gap_nonce
small_gap =
    let facts =
      set_extra_nonce-prefix b'a' (codes "1b2") pool_nonce-IsHex (omega arith) small_job in
    let gap = facts.2 in omega (arith, gap)

nonce-in-share_example :
    (((set_extra_nonce (codes "a1b2") small_job).start_nonce + 77) / 16 ^ 12
      ≡ (set_extra_nonce (codes "a1b2") small_job).extra_nonce)
    × ((set_extra_nonce (codes "a1b2") small_job).start_nonce + 77 < 2 ^ 64)
nonce-in-share_example =
    nonce-in-share b'a' (codes "1b2") pool_nonce-IsHex (omega arith) small_job 77 small_gap
