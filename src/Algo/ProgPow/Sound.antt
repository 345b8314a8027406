-- ===== src/Algo/ProgPow/Sound.antt =====
-- The random program stays within the registers: kernel_cuda.cpp and kernel_opencl.cpp.
use native.Mathlib.Nat.{mod-lt, div-lt_iff_lt-mul, mul_comm, mul-pos}
use luminousminer.Prelude.{
  ℕ, zero, suc, ◌+◌, ◌*◌, ◌-◌, ◌%◌, ◌/◌, ◌<◌, ◌≡◌, ◌≢◌, ◌^◌, ◌∙◌, sym, subst, some, true, false,
  List, [], ◌∷◌, ◌++◌, get_or, length, ltb, leb, ◌==◌, if◌then◌else◌, Bool, Bool-cases, inl, inr,
  arith,
}
use luminousminer.Algo.Crypto.{kiss99}
use luminousminer.Algo.ProgPow.{Round, initialize_round}
use luminousminer.Algo.ProgPow.Registers.{IsOrder, count, initialize_round-IsOrder}
use luminousminer.Algo.ProgPow.KernelSource.{Version}
use luminousminer.Algo.ProgPow.KernelSource.{
  cuda_head, opencl_head, write_math_random_kernel_cuda, write_math_random_kernel_open_cl,
}
use luminousminer.Algo.ProgPow.Refinement.{is_one_program}
use luminousminer.Algo.ProgPow.Writers.{nvidia, amd}
use luminousminer.Prelude.Text.{codes}
use luminousminer.Algo.ProgPow.Program.{
  print_all, Statement, cache, math, entry, Draws, turn_of, draw_cache, draw_math, draw_entry,
  draw_if, draw_round, draw_rounds, draw_entries, program,
}

-- A rotation moves the bits, and by less than a word.
abbrev IsTurn : ℕ → Type 0
IsTurn turn = (0 < turn) × (turn < 32)

-- The registers are there, the two sources of an operation differ, and rotations are proper.
abbrev pub IsSound : ℕ → Statement → Type 0
IsSound regs (cache i src dst op turn) = (src < regs) × (dst < regs) × IsTurn turn
IsSound regs (math i dst src1 src2 op merge turn) =
    (dst < regs) × (src1 < regs) × (src2 < regs) × (src1 ≢ src2) × IsTurn turn
IsSound regs (entry i dst op turn) = (dst < regs) × IsTurn turn

abbrev pub AllSound : ℕ → List Statement → Type 0
AllSound regs [] = Unit {0}
AllSound regs (s ∷ ss) = IsSound regs s × AllSound regs ss

AllSound-append :
    (regs : ℕ) (a b : List Statement) → AllSound regs a → AllSound regs b → AllSound regs (a ++ b)
AllSound-append regs [] b h k = k
AllSound-append regs (s ∷ a) b h k = (h.0, AllSound-append regs a b h.1 k)

count-get_or : (xs : List ℕ) (i : ℕ) → i < length xs → 0 < count (get_or xs i 0) xs
unfolding count
count-get_or [] i h = absurd (omega arith)
count-get_or (x ∷ xs) zero h = ground arith
count-get_or (x ∷ xs) (suc i) h = let rest = count-get_or xs i (omega arith) in omega (arith, rest)

get_or-lt : (n : ℕ) (xs : List ℕ) (i : ℕ) → IsOrder n xs → i < n → get_or xs i 0 < n
get_or-lt n xs i order h =
    let there = count-get_or xs i (omega (arith, order.size)) in
    let once = order.once (get_or xs i 0) in ground (arith, once, there)

turn_of-IsTurn : (sel : ℕ) → IsTurn (turn_of sel)
turn_of-IsTurn sel = (omega arith, omega arith)

-- Two numbers below regs that differ, from one below regs * (regs - 1).
sources_differ :
    (regs r : ℕ)
    → 1 < regs
    → r < regs * (regs - 1)
    → ((if leb (r % regs) (r / regs) then r / regs + 1 else r / regs) < regs)
      × (r % regs ≢ (if leb (r % regs) (r / regs) then r / regs + 1 else r / regs))
sources_differ regs r two h =
    let a : r % regs < regs = mod-lt r (omega arith) in
    let some_register : 0 < regs = omega arith in
    let b : r / regs < regs - 1 =
      (div-lt_iff_lt-mul some_register).1 (subst (λ x. r < x) (mul_comm regs (regs - 1)) h) in
    ground (arith, a, b)

module _ (version : Version) (order : Round) (regs : ℕ) where
  record IsUsable : Type 0 where
    pub two : 1 < regs
    pub dst : IsOrder regs order.dst
    pub src : IsOrder regs order.src

  dst_lt : IsUsable → (n : ℕ) → get_or order.dst (n % regs) 0 < regs
  dst_lt u n = let two = u.two in get_or-lt regs order.dst (n % regs) u.dst (mod-lt n (omega arith))

  src_lt : IsUsable → (n : ℕ) → get_or order.src (n % regs) 0 < regs
  src_lt u n = let two = u.two in get_or-lt regs order.src (n % regs) u.src (mod-lt n (omega arith))

  draw_cache-IsSound :
      IsUsable → (i : ℕ) (s : Draws) → IsSound regs (draw_cache version order regs i s).0
  unfolding draw_cache
  draw_cache-IsSound u i s =
      (src_lt u s.src_cnt, dst_lt u s.dst_cnt, turn_of-IsTurn (kiss99 s.random).0)

  draw_math-IsSound :
      IsUsable → (i : ℕ) (s : Draws) → IsSound regs (draw_math version order regs i s).0
  unfolding draw_math
  draw_math-IsSound u i s =
      let two = u.two in
      let m = regs * (regs - 1) in
      let r = (kiss99 s.random).0 % m in
      let some_sources : 0 < m = mul-pos (omega arith) (omega arith) in
      let (below, differ) = sources_differ regs r two (mod-lt (kiss99 s.random).0 some_sources) in
      (dst_lt u s.dst_cnt, mod-lt r (omega arith), below, differ, turn_of-IsTurn _)

  draw_entry-IsSound :
      IsUsable → (i : ℕ) (s : Draws) → IsSound regs (draw_entry version order regs i s).0
  unfolding draw_entry
  draw_entry-IsSound u i s =
      let two = u.two in
      let other = dst_lt u s.dst_cnt in
      (
        elim (Bool-cases (i == 0)) [
          | inl first ↦ rw first (omega arith)
          | inr later ↦ rw later other
        ],
        turn_of-IsTurn (kiss99 s.random).0,
      )

  if-AllSound :
      (b : Bool) (f : Draws → Statement × Draws) (s : Draws)
      → IsSound regs (f s).0
      → AllSound regs (draw_if version order regs b f s).0
  unfolding draw_if
  if-AllSound true f s h = (h, tt)
  if-AllSound false f s h = tt

  rounds-AllSound :
      IsUsable
      → (count_cache count_math n i : ℕ) (s : Draws)
      → AllSound regs (draw_rounds version order regs count_cache count_math n i s).0
  unfolding draw_rounds draw_round
  rounds-AllSound u count_cache count_math zero i s = tt
  rounds-AllSound u count_cache count_math (suc n) i s =
      let a = draw_if version order regs (ltb i count_cache) (draw_cache version order regs i) s in
      let b = draw_if version order regs (ltb i count_math) (draw_math version order regs i) a.1 in
      AllSound-append regs (a.0 ++ b.0) _
        (AllSound-append regs a.0 b.0 (if-AllSound _ _ s (draw_cache-IsSound u i s))
          (if-AllSound _ _ a.1 (draw_math-IsSound u i a.1)))
        (rounds-AllSound u count_cache count_math n (suc i) b.1)

  entries-AllSound :
      IsUsable → (n i : ℕ) (s : Draws) → AllSound regs (draw_entries version order regs n i s).0
  unfolding draw_entries
  entries-AllSound u zero i s = tt
  entries-AllSound u (suc n) i s =
      (draw_entry-IsSound u i s, entries-AllSound u n (suc i) (draw_entry version order regs i s).1)

program-AllSound :
    (version : Version) (period count_cache count_math regs : ℕ) (order : Round)
    → 1 < regs
    → regs < 2 ^ 32
    → initialize_round period regs ≡ some order
    → AllSound regs (program version order regs count_cache count_math)
unfolding program
program-AllSound version period count_cache count_math regs order two few made =
    let (other, made_too, dst, src) = initialize_round-IsOrder period regs (omega arith) few in
    let found : some other ≡ some order = sym made_too ∙ made in
    let same : other ≡ order = cc in
    let u : IsUsable version order regs = record {
      two = two;
      dst = subst (λ r. IsOrder regs r.dst) same dst;
      src = subst (λ r. IsOrder regs r.src) same src;
    } in
    AllSound-append regs _ _ (rounds-AllSound version order regs u count_cache count_math _ 0 _)
      (entries-AllSound version order regs u 4 0 _)

-- With at least two registers and sources drawn below regs * (regs - 1), the CUDA and the OpenCL source of
-- a period spell the same statements after their heads; each statement names registers that are there, the
-- two sources of each operation differ, and each rotation is by 1 to 31 bits.
pub write_math_random_kernel-AllSound :
    (version : Version) (period count_cache count_math regs : ℕ)
    → 1 < regs
    → regs < 2 ^ 32
    → (statements : List Statement) × (write_math_random_kernel_cuda version period count_cache
          count_math regs
          (regs * (regs - 1))
        ≡ some (
            cuda_head period count_cache count_math
            ++ print_all nvidia version statements
            ++ codes "}\n"))
      × (write_math_random_kernel_open_cl version period count_cache count_math regs
            (regs * (regs - 1))
          ≡ some (opencl_head period ++ print_all amd version statements ++ codes "}\n"))
      × AllSound regs statements
write_math_random_kernel-AllSound version period count_cache count_math regs two few =
    let (order, made, cuda, opencl) =
      is_one_program version period count_cache count_math regs (omega arith) few in
    (
      program version order regs count_cache count_math,
      cuda,
      opencl,
      program-AllSound version period count_cache count_math regs order two few made,
    )
