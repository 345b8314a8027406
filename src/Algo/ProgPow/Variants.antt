-- ===== src/Algo/ProgPow/Variants.antt =====
-- The writers of each variant of ProgPow: sources/algo/progpow/kawpow.cpp, firopow.cpp, meowpow.cpp,
-- evrprogpow.cpp and progpow_quai.cpp, which repeat one body, and those of ProgPow itself in
-- kernel_cuda.cpp and kernel_opencl.cpp.
use luminousminer.Prelude.{ℕ}
use luminousminer.Prelude.Text.{Text}
use luminousminer.Algo.ProgPow.Writers.{
  nvidia, amd, kawpow_cases, progpow_cases, write_math_with, write_cache_with, write_entries_with,
}

-- i, dst, src1, src2, sel_math and sel_merge.
abbrev pub MathWriter : Type 0
MathWriter = ℕ → ℕ → ℕ → ℕ → ℕ → ℕ → Text

-- i, src, dst and sel.
abbrev pub CacheWriter : Type 0
CacheWriter = ℕ → ℕ → ℕ → ℕ → Text

-- i, x and sel.
abbrev pub EntriesWriter : Type 0
EntriesWriter = ℕ → ℕ → ℕ → Text

unfoldable pub progpow_nvidia_math : MathWriter
progpow_nvidia_math = write_math_with nvidia (progpow_cases nvidia)

unfoldable pub progpow_nvidia_cache : CacheWriter
progpow_nvidia_cache = write_cache_with nvidia

unfoldable pub progpow_nvidia_entries : EntriesWriter
progpow_nvidia_entries = write_entries_with nvidia

unfoldable pub progpow_amd_math : MathWriter
progpow_amd_math = write_math_with amd (progpow_cases amd)

unfoldable pub progpow_amd_cache : CacheWriter
progpow_amd_cache = write_cache_with amd

unfoldable pub progpow_amd_entries : EntriesWriter
progpow_amd_entries = write_entries_with amd

unfoldable pub kawpow_nvidia_math : MathWriter
kawpow_nvidia_math = write_math_with nvidia (kawpow_cases nvidia)

unfoldable pub kawpow_nvidia_cache : CacheWriter
kawpow_nvidia_cache = write_cache_with nvidia

unfoldable pub kawpow_amd_math : MathWriter
kawpow_amd_math = write_math_with amd (kawpow_cases amd)

unfoldable pub kawpow_amd_cache : CacheWriter
kawpow_amd_cache = write_cache_with amd

unfoldable pub firopow_nvidia_math : MathWriter
firopow_nvidia_math = write_math_with nvidia (kawpow_cases nvidia)

unfoldable pub firopow_nvidia_cache : CacheWriter
firopow_nvidia_cache = write_cache_with nvidia

unfoldable pub firopow_amd_math : MathWriter
firopow_amd_math = write_math_with amd (kawpow_cases amd)

unfoldable pub firopow_amd_cache : CacheWriter
firopow_amd_cache = write_cache_with amd

unfoldable pub meowpow_nvidia_math : MathWriter
meowpow_nvidia_math = write_math_with nvidia (kawpow_cases nvidia)

unfoldable pub meowpow_nvidia_cache : CacheWriter
meowpow_nvidia_cache = write_cache_with nvidia

unfoldable pub meowpow_amd_math : MathWriter
meowpow_amd_math = write_math_with amd (kawpow_cases amd)

unfoldable pub meowpow_amd_cache : CacheWriter
meowpow_amd_cache = write_cache_with amd

unfoldable pub evrprogpow_nvidia_math : MathWriter
evrprogpow_nvidia_math = write_math_with nvidia (kawpow_cases nvidia)

unfoldable pub evrprogpow_nvidia_cache : CacheWriter
evrprogpow_nvidia_cache = write_cache_with nvidia

unfoldable pub evrprogpow_amd_math : MathWriter
evrprogpow_amd_math = write_math_with amd (kawpow_cases amd)

unfoldable pub evrprogpow_amd_cache : CacheWriter
evrprogpow_amd_cache = write_cache_with amd

unfoldable pub progpow_quai_nvidia_math : MathWriter
progpow_quai_nvidia_math = write_math_with nvidia (kawpow_cases nvidia)

unfoldable pub progpow_quai_nvidia_cache : CacheWriter
progpow_quai_nvidia_cache = write_cache_with nvidia

unfoldable pub progpow_quai_amd_math : MathWriter
progpow_quai_amd_math = write_math_with amd (kawpow_cases amd)

unfoldable pub progpow_quai_amd_cache : CacheWriter
progpow_quai_amd_cache = write_cache_with amd
