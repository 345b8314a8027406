-- ===== src/Algo/ProgPow/KernelSource.antt =====
-- writeMathRandomKernelCuda and writeMathRandomKernelOpenCL of sources/algo/progpow/kernel_cuda.cpp and
-- kernel_opencl.cpp: the source of the kernel of a period. The text is what is written to the file.
use luminousminer.Prelude.{
  ℕ, zero, suc, ◌+◌, ◌/◌, ◌%◌, ◌++◌, Option, none, some, ltb, leb, ◌==◌, if◌then◌else◌, get_elem?,
}
use luminousminer.Prelude.Optional.{◌>>=◌}
use luminousminer.Prelude.Text.{Text, codes}
use luminousminer.Algo.Crypto.{Kiss99Properties, kiss99}
use luminousminer.Algo.ProgPow.{Round, initialize_round}
use luminousminer.Algo.ProgPow.Writers.{decimal}
use luminousminer.Algo.ProgPow.Variants

pub data Version : Type 0 where
  v_0_9_2 v_0_9_3 v_0_9_4 kawpow meowpow firopow evrprogpow progpow_quai : Version

-- The calls of the `switch (progpowVersion)`.
pub record Writers : Type 0 where
  pub math : Variants.MathWriter
  pub cache : Variants.CacheWriter
  pub entries : Variants.EntriesWriter

unfoldable pub cuda_writers : Version → Writers
cuda_writers version = record {
  math = elim version [
    | kawpow ↦ Variants.kawpow_nvidia_math
    | meowpow ↦ Variants.meowpow_nvidia_math
    | firopow ↦ Variants.firopow_nvidia_math
    | evrprogpow ↦ Variants.evrprogpow_nvidia_math
    | progpow_quai ↦ Variants.progpow_quai_nvidia_math
    | _ ↦ Variants.progpow_nvidia_math
  ];
  cache = elim version [
    | kawpow ↦ Variants.kawpow_nvidia_cache
    | meowpow ↦ Variants.meowpow_nvidia_cache
    | firopow ↦ Variants.firopow_nvidia_cache
    | evrprogpow ↦ Variants.evrprogpow_nvidia_cache
    | progpow_quai ↦ Variants.progpow_quai_nvidia_cache
    | _ ↦ Variants.progpow_nvidia_cache
  ];
  entries = Variants.progpow_nvidia_entries;
}

unfoldable pub opencl_writers : Version → Writers
opencl_writers version = record {
  math = elim version [
    | kawpow ↦ Variants.kawpow_amd_math
    | meowpow ↦ Variants.meowpow_amd_math
    | firopow ↦ Variants.firopow_amd_math
    | evrprogpow ↦ Variants.evrprogpow_amd_math
    | progpow_quai ↦ Variants.progpow_quai_amd_math
    | _ ↦ Variants.progpow_amd_math
  ];
  cache = elim version [
    | kawpow ↦ Variants.kawpow_amd_cache
    | meowpow ↦ Variants.meowpow_amd_cache
    | firopow ↦ Variants.firopow_amd_cache
    | evrprogpow ↦ Variants.evrprogpow_amd_cache
    | progpow_quai ↦ Variants.progpow_quai_amd_cache
    | _ ↦ Variants.progpow_amd_cache
  ];
  entries = Variants.progpow_amd_entries;
}

abbrev pub dag_loads : ℕ
dag_loads = 4

-- The local variables of the writer.
pub record Progress : Type 0 where
  pub random : Kiss99Properties
  pub dst_cnt : ℕ
  pub src_cnt : ℕ
  pub ss : Text

module _ (writers : Writers) (order : Round) (regs module_source : ℕ) where
  -- `src2` skips the first source.
  abbrev pub second_source : ℕ → ℕ → ℕ
  second_source src1 src2 = if leb src1 src2 then src2 + 1 else src2

  -- `none` where an index lies outside of `src` or `dst`.
  unfoldable pub write_cache : ℕ → Progress → Option Progress
  write_cache i p = do
    src_value ← get_elem? order.src (p.src_cnt % regs)
    dst_value ← get_elem? order.dst (p.dst_cnt % regs)
    let sel = kiss99 p.random
    some (record {
      random = sel.1;
      dst_cnt = p.dst_cnt + 1;
      src_cnt = p.src_cnt + 1;
      ss = p.ss ++ writers.cache i src_value dst_value sel.0;
    })

  -- The remainder by 0, as with one register, is undefined.
  unfoldable pub write_math : ℕ → Progress → Option Progress
  write_math i p = do
    let rnd = kiss99 p.random
    let sel1 = kiss99 rnd.1
    let sel2 = kiss99 sel1.1
    src_rnd ← if module_source == 0 then none else some (rnd.0 % module_source)
    let src1 = src_rnd % regs
    dst_value ← get_elem? order.dst (p.dst_cnt % regs)
    some (record {
      random = sel2.1;
      dst_cnt = p.dst_cnt + 1;
      src_cnt = p.src_cnt;
      ss =
          p.ss ++ writers.math i dst_value src1 (second_source src1 (src_rnd / regs)) sel1.0 sel2.0;
    })

  unfoldable pub iteration : ℕ → ℕ → ℕ → Progress → Option Progress
  iteration count_cache count_math i p = do
    q ← if ltb i count_cache then write_cache i p else some p
    if ltb i count_math then write_math i q else some q

  -- `for (i; i < max; ++i)`, with the rounds that remain.
  unfoldable pub iterate : ℕ → ℕ → ℕ → ℕ → Progress → Option Progress
  iterate count_cache count_math zero i p = some p
  iterate count_cache count_math (suc n) i p =
      iteration count_cache count_math i p >>= iterate count_cache count_math n (suc i)

  -- The first load merges into register 0.
  unfoldable pub write_load : ℕ → Progress → Option Progress
  write_load i p = do
    let sel = kiss99 p.random
    x ← if i == 0 then some 0 else get_elem? order.dst (p.dst_cnt % regs)
    some (record {
      random = sel.1;
      dst_cnt = if i == 0 then p.dst_cnt else p.dst_cnt + 1;
      src_cnt = p.src_cnt;
      ss = p.ss ++ writers.entries i x sel.0;
    })

  unfoldable pub write_loads : ℕ → ℕ → Progress → Option Progress
  write_loads zero i p = some p
  write_loads (suc n) i p = write_load i p >>= write_loads n (suc i)

abbrev pub larger : ℕ → ℕ → ℕ
larger a b = if ltb b a then a else b

unfoldable pub cuda_head : ℕ → ℕ → ℕ → Text
cuda_head period count_cache count_math =
    codes "// period "
    ++ decimal period
    ++ codes "\n// COUNT_CACHE = "
    ++ decimal count_cache
    ++ codes "\n// COUNT_MATH = "
    ++ decimal count_math
    ++ codes "\n__device__ __forceinline__\nvoid sequence_dynamic(\n"
    ++ codes "\tuint32_t const* __restrict__ const header_dag,\n"
    ++ codes "\tuint32_t* __restrict__ const mix,\n"
    ++ codes "\tuint4 const* __restrict__ entries)\n{\n\tuint32_t dag_offset;\n\tuint32_t data;\n"

unfoldable pub opencl_head : ℕ → Text
opencl_head period =
    codes "// period "
    ++ decimal period
    ++ codes "\ninline\nvoid sequence_dynamic(\n"
    ++ codes "\t__local uint const* const restrict header_dag, \n"
    ++ codes "\tuint* const restrict hash, \n"
    ++ codes "\tuint4 entries)\n{\n\tuint dag_offset;\n\tuint data;\n"

-- The two loops of a writer, from the head on, and the closing brace.
unfoldable pub write_statements : Writers → Round → ℕ → ℕ → ℕ → ℕ → Text → Option Text
write_statements writers order regs module_source count_cache count_math head = do
  let start : Progress = record { random = order.random; dst_cnt = 0; src_cnt = 0; ss = head }
  let most = larger count_cache count_math
  p ←
      (iterate writers order regs module_source count_cache count_math most 0 start
        >>= write_loads writers order regs module_source dag_loads 0)
  some (p.ss ++ codes "}\n")

-- What both writers do after the head.
unfoldable pub write_body : Writers → Text → ℕ → ℕ → ℕ → ℕ → ℕ → Option Text
write_body writers head period count_cache count_math regs module_source = do
  order ← initialize_round period regs
  write_statements writers order regs module_source count_cache count_math head

unfoldable pub write_math_random_kernel_cuda : Version → ℕ → ℕ → ℕ → ℕ → ℕ → Option Text
write_math_random_kernel_cuda version period count_cache count_math regs module_source =
    write_body (cuda_writers version) (cuda_head period count_cache count_math) period count_cache
      count_math regs module_source

unfoldable pub write_math_random_kernel_open_cl : Version → ℕ → ℕ → ℕ → ℕ → ℕ → Option Text
write_math_random_kernel_open_cl version period count_cache count_math regs module_source =
    write_body (opencl_writers version) (opencl_head period) period count_cache count_math regs
      module_source
