-- ===== src/Algo/ProgPow/Refinement.antt =====
-- The sources that kernel_cuda.cpp and kernel_opencl.cpp write for a period are two spellings of one
-- random program.
use native.Mathlib.Nat.{mod-lt, mul-le-mul_left}
use native.Mathlib.Omega.{arith}
use mathlib.Core.List.{append_assoc, append-nil}
use luminousminer.Prelude.{
  ℕ, zero, suc, ◌*◌, ◌-◌, ◌%◌, ◌^◌, ◌≤◌, ◌<◌, ◌≡◌, refl, sym, ap, ◌∙◌, Bool, true, false, Option,
  some, List, [], ◌∷◌, ◌++◌, get_or, get_elem?, length, ltb, ◌==◌, if◌then◌else◌, Bool-cases, inl,
  inr,
}
use luminousminer.Prelude.Optional.{◌>>=◌}
use luminousminer.Prelude.Text.{Text, codes}
use luminousminer.Algo.ProgPow.{Round, initialize_round}
use luminousminer.Algo.ProgPow.Registers.{initialize_round-IsOrder}
use luminousminer.Algo.ProgPow.Writers.{Dialect, nvidia, amd}
use luminousminer.Algo.ProgPow.KernelSource.{
  Version, Writers, cuda_writers, opencl_writers, Progress, write_cache, write_math, iteration,
  iterate, write_load, write_loads, write_statements, larger, dag_loads, cuda_head, opencl_head,
  write_body, write_math_random_kernel_cuda, write_math_random_kernel_open_cl,
}
use luminousminer.Algo.ProgPow.Program.{
  Statement, print, print_all, Draws, draw_cache, draw_math, draw_entry, draw_if, draw_round,
  draw_rounds, draw_entries, program,
}
use luminousminer.Algo.ProgPow.Spelling.{Spells, cuda_writers-Spells, opencl_writers-Spells}

get_elem?-get_or : (xs : List ℕ) (i : ℕ) → i < length xs → get_elem? xs i ≡ some (get_or xs i 0)
get_elem?-get_or [] i h = absurd (omega arith)
get_elem?-get_or (x ∷ xs) zero h = refl
get_elem?-get_or (x ∷ xs) (suc i) h = get_elem?-get_or xs i (omega arith)

print_all-append :
    (d : Dialect) (v : Version) (a b : List Statement)
    → print_all d v (a ++ b) ≡ print_all d v a ++ print_all d v b
print_all-append d v [] b = refl
print_all-append d v (s ∷ a) b =
    ap (λ t. print d v s ++ t) (print_all-append d v a b)
    ∙ sym (append_assoc (print d v s) (print_all d v a) (print_all d v b))

sources : (regs : ℕ) → 1 < regs → (regs * (regs - 1) == 0) ≡ false
sources regs h =
    let some_room : 1 ≤ regs - 1 = omega (arith, h) in
    let least = mul-le-mul_left regs some_room in ground (arith, h, least)

abbrev with_text : Draws → Text → Progress
with_text s t = record { random = s.random; dst_cnt = s.dst_cnt; src_cnt = s.src_cnt; ss = t }

module _ (d : Dialect) (version : Version) (w : Writers) (order : Round) (regs : ℕ) where
  -- The writers spell the version, and the orders have an entry for each register.
  record IsReady : Type 0 where
    pub spelled : Spells d version w
    pub two_registers : 1 < regs
    pub dst_size : length order.dst ≡ regs
    pub src_size : length order.src ≡ regs

  abbrev modulus : ℕ
  modulus = regs * (regs - 1)

  -- What follows the text so far, for the statements that were drawn.
  abbrev told : Text → List Statement × Draws → Option Progress
  told t drawn = some (with_text drawn.1 (t ++ print_all d version drawn.0))

  dst_at : IsReady → (n : ℕ) → get_elem? order.dst (n % regs) ≡ some (get_or order.dst (n % regs) 0)
  dst_at h n =
      let below : n % regs < regs = mod-lt n (omega (arith, h.two_registers)) in
      get_elem?-get_or order.dst (n % regs) (omega (arith, h.dst_size))

  src_at : IsReady → (n : ℕ) → get_elem? order.src (n % regs) ≡ some (get_or order.src (n % regs) 0)
  src_at h n =
      let below : n % regs < regs = mod-lt n (omega (arith, h.two_registers)) in
      get_elem?-get_or order.src (n % regs) (omega (arith, h.src_size))

  write_cache-told :
      IsReady
      → (i : ℕ) (s : Draws) (t : Text)
      → write_cache w order regs modulus i (with_text s t)
        ≡ some (
            with_text
              (draw_cache version order regs i s).1
              (t ++ print d version (draw_cache version order regs i s).0))
  unfolding write_cache draw_cache
  write_cache-told h i s t = simp (src_at h s.src_cnt, dst_at h s.dst_cnt, h.spelled.cache_text)

  write_math-told :
      IsReady
      → (i : ℕ) (s : Draws) (t : Text)
      → write_math w order regs modulus i (with_text s t)
        ≡ some (
            with_text
              (draw_math version order regs i s).1
              (t ++ print d version (draw_math version order regs i s).0))
  unfolding write_math draw_math
  write_math-told h i s t =
      simp (sources regs h.two_registers, dst_at h s.dst_cnt, h.spelled.math_text)

  write_load-told :
      IsReady
      → (i : ℕ) (s : Draws) (t : Text)
      → write_load w order regs modulus i (with_text s t)
        ≡ some (
            with_text
              (draw_entry version order regs i s).1
              (t ++ print d version (draw_entry version order regs i s).0))
  unfolding write_load draw_entry
  write_load-told h i s t = elim (Bool-cases (i == 0)) [
    | inl first ↦ simp (first, h.spelled.entries_text)
    | inr later ↦ simp (later, dst_at h s.dst_cnt, h.spelled.entries_text)
  ]

  -- A step that is taken or left out.
  if-told :
      (b : Bool) (f : Draws → Statement × Draws) (s : Draws) (t : Text) (step : Option Progress)
      → step ≡ some (with_text (f s).1 (t ++ print d version (f s).0))
      → (if b then step else some (with_text s t)) ≡ told t (draw_if version order regs b f s)
  unfolding draw_if
  if-told true f s t step h =
      h ∙ ap (λ l. some (with_text (f s).1 (t ++ l))) (sym (append-nil (print d version (f s).0)))
  if-told false f s t step h = ap (λ l. some (with_text s l)) (sym (append-nil t))

  -- Two parts in a row.
  chain :
      (t : Text) (a b : List Statement × Draws) (first : Option Progress)
      (second : Progress → Option Progress)
      → first ≡ told t a
      → second (with_text a.1 (t ++ print_all d version a.0))
        ≡ told (t ++ print_all d version a.0) b
      → (first >>= second) ≡ told t (a.0 ++ b.0, b.1)
  chain t a b first second h k =
      ap (λ o. o >>= second) h
      ∙ k
      ∙ ap (λ l. some (with_text b.1 l))
          (append_assoc t (print_all d version a.0) (print_all d version b.0)
            ∙ ap (λ l. t ++ l) (sym (print_all-append d version a.0 b.0)))

  iteration-told :
      IsReady
      → (count_cache count_math i : ℕ) (s : Draws) (t : Text)
      → iteration w order regs modulus count_cache count_math i (with_text s t)
        ≡ told t (draw_round version order regs count_cache count_math i s)
  unfolding iteration draw_round
  iteration-told h count_cache count_math i s t =
      let a = draw_if version order regs (ltb i count_cache) (draw_cache version order regs i) s in
      chain t a (draw_if version order regs (ltb i count_math) (draw_math version order regs i) a.1)
        _ _
        (if-told (ltb i count_cache) (draw_cache version order regs i) s t _
          (write_cache-told h i s t))
        (if-told (ltb i count_math) (draw_math version order regs i) a.1
          (t ++ print_all d version a.0) _ (write_math-told h i a.1 (t ++ print_all d version a.0)))

  iterate-told :
      IsReady
      → (count_cache count_math n i : ℕ) (s : Draws) (t : Text)
      → iterate w order regs modulus count_cache count_math n i (with_text s t)
        ≡ told t (draw_rounds version order regs count_cache count_math n i s)
  unfolding iterate draw_rounds
  iterate-told h count_cache count_math zero i s t =
      ap (λ l. some (with_text s l)) (sym (append-nil t))
  iterate-told h count_cache count_math (suc n) i s t =
      let a = draw_round version order regs count_cache count_math i s in
      chain t a (draw_rounds version order regs count_cache count_math n (suc i) a.1) _ _
        (iteration-told h count_cache count_math i s t)
        (iterate-told h count_cache count_math n (suc i) a.1 (t ++ print_all d version a.0))

  loads-told :
      IsReady
      → (n i : ℕ) (s : Draws) (t : Text)
      → write_loads w order regs modulus n i (with_text s t)
        ≡ told t (draw_entries version order regs n i s)
  unfolding write_loads draw_entries
  loads-told h zero i s t = ap (λ l. some (with_text s l)) (sym (append-nil t))
  loads-told h (suc n) i s t =
      let a = draw_entry version order regs i s in
      chain t (a.0 ∷ [], a.1) (draw_entries version order regs n (suc i) a.1) _ _
        (write_load-told h i s t
          ∙ ap (λ l. some (with_text a.1 (t ++ l))) (sym (append-nil (print d version a.0))))
        (loads-told h n (suc i) a.1 (t ++ print_all d version (a.0 ∷ [])))

  abbrev start : Draws
  start = record { random = order.random; dst_cnt = 0; src_cnt = 0 }

  body-program :
      IsReady
      → (head : Text) (period count_cache count_math : ℕ)
      → initialize_round period regs ≡ some order
      → write_body w head period count_cache count_math regs modulus
        ≡ some (
            head
            ++ print_all d version (program version order regs count_cache count_math)
            ++ codes "}\n")
  unfolding write_body write_statements program
  body-program h head period count_cache count_math made =
      let most = larger count_cache count_math in
      let a = draw_rounds version order regs count_cache count_math most 0 start in
      let b = draw_entries version order regs dag_loads 0 a.1 in
      let both =
        chain head a b
          (iterate w order regs modulus count_cache count_math most 0 (with_text start head))
          (write_loads w order regs modulus dag_loads 0)
          (iterate-told h count_cache count_math most 0 start head)
          (loads-told h dag_loads 0 a.1 (head ++ print_all d version a.0)) in
      ap (λ o. o >>= λ r. write_statements w r regs modulus count_cache count_math head) made
      ∙ ap (λ o. o >>= λ p. some (p.ss ++ codes "}\n")) both

-- What both writers write: after its head each has one program, statement by statement in its language,
-- with the numbers of the comments those of the operations, and the closing brace.
abbrev pub IsOneProgram : Version → ℕ → ℕ → ℕ → ℕ → Type 0
IsOneProgram version period count_cache count_math regs =
    (order : Round) × (initialize_round period regs ≡ some order)
    × (write_math_random_kernel_cuda version period count_cache count_math regs (regs * (regs - 1))
        ≡ some (
            cuda_head period count_cache count_math
            ++ print_all nvidia version (program version order regs count_cache count_math)
            ++ codes "}\n"))
    × (write_math_random_kernel_open_cl version period count_cache count_math regs
          (regs * (regs - 1))
        ≡ some (
            opencl_head period
            ++ print_all amd version (program version order regs count_cache count_math)
            ++ codes "}\n"))

pub is_one_program :
    (version : Version) (period count_cache count_math regs : ℕ)
    → 1 < regs
    → regs < 2 ^ 32
    → IsOneProgram version period count_cache count_math regs
unfolding write_math_random_kernel_cuda write_math_random_kernel_open_cl
is_one_program version period count_cache count_math regs two_registers few =
    let (order, made, dst, src) =
      initialize_round-IsOrder period regs (omega (arith, two_registers)) few in
    (
      order,
      made,
      body-program nvidia version (cuda_writers version) order regs
          (record {
            spelled = cuda_writers-Spells version;
            two_registers = two_registers;
            dst_size = dst.size;
            src_size = src.size;
          })
          (cuda_head period count_cache count_math) period count_cache count_math made,
      body-program amd version (opencl_writers version) order regs
          (record {
            spelled = opencl_writers-Spells version;
            two_registers = two_registers;
            dst_size = dst.size;
            src_size = src.size;
          })
          (opencl_head period) period count_cache count_math made,
    )

-- For a period, from 2 to 2 ^ 16 registers, so that regs * (regs - 1) is positive and fits 32 bits, and
-- sources drawn below it, both writers go through; and what they write are two spellings of one program
-- of statements on registers: after its head each has that program, statement by statement in its
-- language, with the numbers of the comments those of the operations, and the closing brace.
pub write_math_random_kernel-program :
    (version : Version) (period count_cache count_math regs : ℕ)
    → 1 < regs
    → regs ≤ 2 ^ 16
    → IsOneProgram version period count_cache count_math regs
write_math_random_kernel-program version period count_cache count_math regs two_registers few =
    is_one_program version period count_cache count_math regs two_registers (omega (arith, few))
