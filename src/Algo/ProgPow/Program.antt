-- ===== src/Algo/ProgPow/Program.antt =====
-- The random program of ProgPow as statements on registers, apart from any text, and its two spellings.
use luminousminer.Prelude.{
  ℕ, zero, suc, ◌+◌, ◌-◌, ◌*◌, ◌%◌, ◌/◌, ◌^◌, Bool, true, false, List, [], ◌∷◌, ◌++◌, get_or, ltb,
  leb, ◌==◌, if◌then◌else◌,
}
use luminousminer.Prelude.Text.{Text, codes}
use luminousminer.Algo.Crypto.{Kiss99Properties, kiss99}
use luminousminer.Algo.ProgPow.{Round}
use luminousminer.Algo.ProgPow.Writers.{Dialect, decimal, register, remark}
use luminousminer.Algo.ProgPow.KernelSource.{Version, v_0_9_2, v_0_9_3, v_0_9_4, larger}

pub data MathOp : Type 0 where
  add mul mul_hi min rotl rotr bits_and bits_or bits_xor clz popcount : MathOp

pub data MergeOp : Type 0 where
  multiply_add xor_multiply rotl_xor rotr_xor : MergeOp

-- The register `dst` takes its value merged with a word of the cache, with the result of an operation on
-- two registers, or with a word of the DAG.
pub data Statement : Type 0 where
  cache : ℕ → ℕ → ℕ → MergeOp → ℕ → Statement
  math : ℕ → ℕ → ℕ → ℕ → MathOp → MergeOp → ℕ → Statement
  entry : ℕ → ℕ → MergeOp → ℕ → Statement

-- The number that selects an operation, as `sel % 4`.
abbrev pub merge_number : MergeOp → ℕ
merge_number multiply_add = 0
merge_number xor_multiply = 1
merge_number rotl_xor = 2
merge_number rotr_xor = 3

-- As `sel % 11` in the variants of ProgPow.
abbrev pub kawpow_number : MathOp → ℕ
kawpow_number add = 0
kawpow_number mul = 1
kawpow_number mul_hi = 2
kawpow_number min = 3
kawpow_number rotl = 4
kawpow_number rotr = 5
kawpow_number bits_and = 6
kawpow_number bits_or = 7
kawpow_number bits_xor = 8
kawpow_number clz = 9
kawpow_number popcount = 10

-- ProgPow itself counts the bits first.
abbrev pub progpow_number : MathOp → ℕ
progpow_number clz = 0
progpow_number popcount = 1
progpow_number add = 2
progpow_number mul = 3
progpow_number mul_hi = 4
progpow_number min = 5
progpow_number rotl = 6
progpow_number rotr = 7
progpow_number bits_and = 8
progpow_number bits_or = 9
progpow_number bits_xor = 10

abbrev pub math_number : Version → MathOp → ℕ
math_number v_0_9_2 op = progpow_number op
math_number v_0_9_3 op = progpow_number op
math_number v_0_9_4 op = progpow_number op
math_number _ op = kawpow_number op

module _ (d : Dialect) where
  -- The expressions of a kernel.
  abbrev pub print_call : Text → Text → Text → Text
  print_call name l r = name ++ l ++ codes ", " ++ r ++ codes ")"

  abbrev pub print_infix : Text → Text → Text → Text
  print_infix operator l r = l ++ operator ++ r

  abbrev pub print_sum : Text → Text → Text → Text
  print_sum name l r = name ++ l ++ codes ") + " ++ name ++ r ++ codes ")"

  abbrev pub print_math : MathOp → Text → Text → Text
  print_math add l r = print_infix (codes " + ") l r
  print_math mul l r = print_infix (codes " * ") l r
  print_math mul_hi l r = print_call d.mul_hi l r
  print_math min l r = print_call (codes "min(") l r
  print_math rotl l r = print_call (codes "rol_u32(") l r
  print_math rotr l r = print_call (codes "ror_u32(") l r
  print_math bits_and l r = print_infix (codes " & ") l r
  print_math bits_or l r = print_infix (codes " | ") l r
  print_math bits_xor l r = print_infix (codes " ^ ") l r
  print_math clz l r = print_sum d.clz l r
  print_math popcount l r = print_sum d.popcount l r

  abbrev pub print_merge : MergeOp → ℕ → Text → Text → Text
  print_merge multiply_add turn l r = codes "(" ++ l ++ codes " * 33) + " ++ r
  print_merge xor_multiply turn l r = codes "(" ++ l ++ codes " ^ " ++ r ++ codes ") * 33"
  print_merge rotl_xor turn l r =
      codes "rol_u32(" ++ l ++ codes ", " ++ decimal turn ++ codes ") ^ " ++ r
  print_merge rotr_xor turn l r =
      codes "ror_u32(" ++ l ++ codes ", " ++ decimal turn ++ codes ") ^ " ++ r

  abbrev pub print_assign : Text → Text → Text
  print_assign to value = codes "\t" ++ to ++ codes " = " ++ value ++ codes ";\n"

  abbrev pub print_update : ℕ → MergeOp → ℕ → Text → Text
  print_update dst op turn r =
      print_assign (register d dst) (print_merge op turn (register d dst) r)

  abbrev pub print : Version → Statement → Text
  print version (cache i src dst op turn) =
      remark d i (codes "merge ") (merge_number op)
      ++ codes "\tdag_offset = "
      ++ register d src
      ++ codes " & 4095u;\n"
      ++ print_update dst op turn (codes "header_dag[dag_offset]")
  print version (math i dst src1 src2 op merge turn) =
      remark d i (codes "sel_math ") (math_number version op)
      ++ print_assign (codes "data") (print_math op (register d src1) (register d src2))
      ++ remark d i (codes "sel_merge ") (merge_number merge)
      ++ print_update dst merge turn (codes "data")
  print version (entry i dst op turn) =
      remark d i (codes "merge_entries ") (merge_number op)
      ++ print_update dst op turn (get_or d.entries i [])

  abbrev pub print_all : Version → List Statement → Text
  print_all version [] = []
  print_all version (s ∷ ss) = print version s ++ print_all version ss

-- The operation that a number selects.
abbrev pub merge_of : ℕ → MergeOp
merge_of n = get_or (multiply_add ∷ xor_multiply ∷ rotl_xor ∷ rotr_xor ∷ []) n multiply_add

abbrev pub kawpow_ops : List MathOp
kawpow_ops =
    add ∷ mul ∷ mul_hi ∷ min ∷ rotl ∷ rotr ∷ bits_and ∷ bits_or ∷ bits_xor ∷ clz ∷ popcount ∷ []

abbrev pub progpow_ops : List MathOp
progpow_ops =
    clz ∷ popcount ∷ add ∷ mul ∷ mul_hi ∷ min ∷ rotl ∷ rotr ∷ bits_and ∷ bits_or ∷ bits_xor ∷ []

abbrev pub math_ops : Version → List MathOp
math_ops v_0_9_2 = progpow_ops
math_ops v_0_9_3 = progpow_ops
math_ops v_0_9_4 = progpow_ops
math_ops _ = kawpow_ops

abbrev pub math_of : Version → ℕ → MathOp
math_of version n = get_or (math_ops version) n add

abbrev pub turn_of : ℕ → ℕ
turn_of sel = sel / 2 ^ 16 % 31 + 1

-- How far the random numbers and the two orders are used up.
pub record Draws : Type 0 where
  pub random : Kiss99Properties
  pub dst_cnt : ℕ
  pub src_cnt : ℕ

module _ (version : Version) (order : Round) (regs : ℕ) where
  abbrev next_dst : Draws → ℕ
  next_dst s = get_or order.dst (s.dst_cnt % regs) 0

  unfoldable pub draw_cache : ℕ → Draws → Statement × Draws
  draw_cache i s =
      let (sel, rest) = kiss99 s.random in
      (
        cache i (get_or order.src (s.src_cnt % regs) 0) (next_dst s) (merge_of (sel % 4))
            (turn_of sel),
        record { random = rest; dst_cnt = s.dst_cnt + 1; src_cnt = s.src_cnt + 1 },
      )

  -- Two different sources from one number below regs * (regs - 1).
  unfoldable pub draw_math : ℕ → Draws → Statement × Draws
  draw_math i s =
      let (rnd, r1) = kiss99 s.random in
      let (sel1, r2) = kiss99 r1 in
      let (sel2, r3) = kiss99 r2 in
      let a = rnd % (regs * (regs - 1)) % regs in
      let b = rnd % (regs * (regs - 1)) / regs in
      (
        math i (next_dst s) a (if leb a b then b + 1 else b) (math_of version (sel1 % 11))
            (merge_of (sel2 % 4)) (turn_of sel2),
        record { random = r3; dst_cnt = s.dst_cnt + 1; src_cnt = s.src_cnt },
      )

  unfoldable pub draw_entry : ℕ → Draws → Statement × Draws
  draw_entry i s =
      let (sel, rest) = kiss99 s.random in
      (
        entry i (if i == 0 then 0 else next_dst s) (merge_of (sel % 4)) (turn_of sel),
        record {
          random = rest;
          dst_cnt = if i == 0 then s.dst_cnt else s.dst_cnt + 1;
          src_cnt = s.src_cnt;
        },
      )

  -- A statement where the round has one.
  unfoldable pub draw_if : Bool → (Draws → Statement × Draws) → Draws → List Statement × Draws
  draw_if true f s = let (st, next) = f s in (st ∷ [], next)
  draw_if false f s = ([], s)

  unfoldable pub draw_round : ℕ → ℕ → ℕ → Draws → List Statement × Draws
  draw_round count_cache count_math i s =
      let (a, s1) = draw_if (ltb i count_cache) (draw_cache i) s in
      let (b, s2) = draw_if (ltb i count_math) (draw_math i) s1 in (a ++ b, s2)

  unfoldable pub draw_rounds : ℕ → ℕ → ℕ → ℕ → Draws → List Statement × Draws
  draw_rounds count_cache count_math zero i s = ([], s)
  draw_rounds count_cache count_math (suc n) i s =
      let (a, s1) = draw_round count_cache count_math i s in
      let (b, s2) = draw_rounds count_cache count_math n (suc i) s1 in (a ++ b, s2)

  unfoldable pub draw_entries : ℕ → ℕ → Draws → List Statement × Draws
  draw_entries zero i s = ([], s)
  draw_entries (suc n) i s =
      let (st, s1) = draw_entry i s in let (b, s2) = draw_entries n (suc i) s1 in (st ∷ b, s2)

  -- The random program of a period: a round for each cache access or operation, then four loads.
  unfoldable pub program : ℕ → ℕ → List Statement
  program count_cache count_math =
      let start : Draws = record { random = order.random; dst_cnt = 0; src_cnt = 0 } in
      let (a, s) = draw_rounds count_cache count_math (larger count_cache count_math) 0 start in
      a ++ (draw_entries 4 0 s).0
