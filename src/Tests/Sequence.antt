-- ===== src/Tests/Sequence.antt =====
-- sources/algo/progpow/kernel_cuda.cpp and kernel_opencl.cpp at concrete inputs.
use luminousminer.Prelude.{◌*◌, ◌-◌, ◌≡◌, ◌++◌, refl, some, List, arith}
use luminousminer.Prelude.Text.{codes}
use luminousminer.Algo.ProgPow.{Round, initialize_round}
use luminousminer.Algo.ProgPow.Writers.{
  nvidia, amd, decimal, write_math_with, kawpow_cases, write_merge, merge_cases,
}
use luminousminer.Algo.ProgPow.Variants.{kawpow_nvidia_math}
use luminousminer.Algo.ProgPow.KernelSource.{
  kawpow, cuda_head, opencl_head, write_math_random_kernel_cuda, write_math_random_kernel_open_cl,
}
use luminousminer.Algo.ProgPow.Program.{Statement, print_all, program}
use luminousminer.Algo.ProgPow.Refinement.{write_math_random_kernel-program}
use luminousminer.Algo.ProgPow.Sound.{AllSound, write_math_random_kernel-AllSound}

popcount_then_rotate :
    kawpow_nvidia_math 3 17 4 31 21 131074
    ≡ codes
        "\t// iter[3] sel_math 10\n\tdata = __popc(mix[4]) + __popc(mix[31]);\n\t// iter[3] sel_merge 2\n\tmix[17] = rol_u32(mix[17], 3) ^ data;\n"
unfolding kawpow_nvidia_math write_math_with kawpow_cases write_merge merge_cases decimal
popcount_then_rotate = refl

write_math_random_kernel-program_example :
    (order : Round) × (initialize_round 5 32 ≡ some order)
    × (write_math_random_kernel_cuda kawpow 5 11 18 32 (32 * (32 - 1))
        ≡ some (
            cuda_head 5 11 18
            ++ print_all nvidia kawpow (program kawpow order 32 11 18)
            ++ codes "}\n"))
    × (write_math_random_kernel_open_cl kawpow 5 11 18 32 (32 * (32 - 1))
        ≡ some
            (opencl_head 5 ++ print_all amd kawpow (program kawpow order 32 11 18) ++ codes "}\n"))
write_math_random_kernel-program_example =
    write_math_random_kernel-program kawpow 5 11 18 32 (omega arith) (omega arith)

write_math_random_kernel-AllSound_example :
    (statements : List Statement) × (write_math_random_kernel_cuda kawpow 5 11 18 32 (32 * (32 - 1))
      ≡ some (cuda_head 5 11 18 ++ print_all nvidia kawpow statements ++ codes "}\n"))
    × (write_math_random_kernel_open_cl kawpow 5 11 18 32 (32 * (32 - 1))
        ≡ some (opencl_head 5 ++ print_all amd kawpow statements ++ codes "}\n"))
    × AllSound 32 statements
write_math_random_kernel-AllSound_example =
    write_math_random_kernel-AllSound kawpow 5 11 18 32 (omega arith) (omega arith)
