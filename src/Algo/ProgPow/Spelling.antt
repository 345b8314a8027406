-- ===== src/Algo/ProgPow/Spelling.antt =====
-- The writers of the statements spell the statements of the random program.
use native.Mathlib.Nat.{mod-lt}
use mathlib.Core.List.{append_assoc}
use luminousminer.Prelude.{
  ℕ, zero, suc, ◌+◌, ◌-◌, ◌%◌, ◌<◌, ◌≡◌, refl, sym, ap, subst, ◌∙◌, List, [], ◌∷◌, ◌++◌, get_or,
  length, map, numbers, arith,
}
use luminousminer.Prelude.Text.{Text, codes}
use luminousminer.Algo.ProgPow.Writers.{
  module_cache, Dialect, nvidia, amd, register, decimal, merge_cases, write_merge, kawpow_cases,
  progpow_cases, write_math_with, write_cache_with, write_entries_with,
}
use luminousminer.Algo.ProgPow.Variants.{
  evrprogpow_amd_cache, evrprogpow_amd_math, evrprogpow_nvidia_cache, evrprogpow_nvidia_math,
  firopow_amd_cache, firopow_amd_math, firopow_nvidia_cache, firopow_nvidia_math, kawpow_amd_cache,
  kawpow_amd_math, kawpow_nvidia_cache, kawpow_nvidia_math, meowpow_amd_cache, meowpow_amd_math,
  meowpow_nvidia_cache, meowpow_nvidia_math, progpow_amd_cache, progpow_amd_entries,
  progpow_amd_math, progpow_nvidia_cache, progpow_nvidia_entries, progpow_nvidia_math,
  progpow_quai_amd_cache, progpow_quai_amd_math, progpow_quai_nvidia_cache,
  progpow_quai_nvidia_math,
}
use luminousminer.Algo.ProgPow.KernelSource.{
  Version, v_0_9_2, v_0_9_3, v_0_9_4, kawpow, meowpow, firopow, evrprogpow, progpow_quai, Writers,
  cuda_writers, opencl_writers,
}
use luminousminer.Algo.ProgPow.Program.{
  MathOp, cache, math, entry, merge_number, math_number, kawpow_number, progpow_number, print_math,
  print_assign, print_update, print, merge_of, math_of, kawpow_ops, progpow_ops, math_ops, turn_of,
}

module _ (d : Dialect) where
  merge_at :
      (n dst sel : ℕ) (r : Text)
      → n < 4
      → get_or (merge_cases d (register d dst ++ codes " = ") (register d dst) r sel) n []
        ≡ print_update d dst (merge_of n) (turn_of sel) r
  unfolding merge_cases
  merge_at zero dst sel r h = simp append_assoc
  merge_at (suc zero) dst sel r h = simp append_assoc
  merge_at (suc (suc zero)) dst sel r h = simp append_assoc
  merge_at (suc (suc (suc zero))) dst sel r h = simp append_assoc
  merge_at (suc (suc (suc (suc n)))) dst sel r h = absurd (omega arith)

get_or-map :
    {A B : Type 0} (f : A → B) (xs : List A) (n : ℕ) (a : A) (b : B)
    → n < length xs
    → get_or (map f xs) n b ≡ f (get_or xs n a)
get_or-map f [] n a b h = absurd (omega arith)
get_or-map f (x ∷ xs) zero a b h = refl
get_or-map f (x ∷ xs) (suc n) a b h = get_or-map f xs n a b (omega arith)

get_or-numbers : (k m n : ℕ) → n < m → get_or (numbers k m) n 0 ≡ k + n
unfolding numbers
get_or-numbers k zero n h = absurd (omega arith)
get_or-numbers k (suc m) zero h = omega arith
get_or-numbers k (suc m) (suc n) h = get_or-numbers (k + 1) m n (omega arith) ∙ omega arith

-- A list of operations and their numbers in its order.
numbered :
    (number : MathOp → ℕ) (ops : List MathOp) (n : ℕ)
    → map number ops ≡ numbers 0 (length ops)
    → n < length ops
    → number (get_or ops n MathOp.add) ≡ n
numbered number ops n e h =
    sym (get_or-map number ops n MathOp.add 0 h)
    ∙ ap (λ l. get_or l n 0) e
    ∙ get_or-numbers 0 (length ops) n h
    ∙ omega arith

decimal_mask : decimal (module_cache - 1) ≡ codes "4095"
unfolding decimal
decimal_mask = refl

merge_number-merge_of : (n : ℕ) → n < 4 → merge_number (merge_of n) ≡ n
merge_number-merge_of zero h = refl
merge_number-merge_of (suc zero) h = refl
merge_number-merge_of (suc (suc zero)) h = refl
merge_number-merge_of (suc (suc (suc zero))) h = refl
merge_number-merge_of (suc (suc (suc (suc n)))) h = absurd (omega arith)

module _ (d : Dialect) where
  -- One case of the writers for each operation, in the order of the operations.
  IsCases : (Text → Text → List Text) → List MathOp → Type 0
  IsCases cases ops =
      (l r : Text) → cases l r ≡ map (λ op. print_assign d (codes "data") (print_math d op l r)) ops

  kawpow_cases-map : IsCases (kawpow_cases d) kawpow_ops
  unfolding kawpow_cases IsCases
  kawpow_cases-map l r = simp append_assoc

  progpow_cases-map : IsCases (progpow_cases d) progpow_ops
  unfolding progpow_cases IsCases
  progpow_cases-map l r = simp append_assoc

  write_merge-print :
      (dst sel : ℕ) (r : Text)
      → write_merge d (register d dst ++ codes " = ") (register d dst) r sel
        ≡ print_update d dst (merge_of (sel % 4)) (turn_of sel) r
  unfolding write_merge
  write_merge-print dst sel r = merge_at d (sel % 4) dst sel r (mod-lt sel (omega arith))

  -- The cases of a writer and the numbers of its comments fit a version.
  record Fits (version : Version) (cases : Text → Text → List Text) : Type 0 where
    pub listed : IsCases cases (math_ops version)
    pub in_order : map (math_number version) (math_ops version) ≡ numbers 0 11
    pub eleven : length (math_ops version) ≡ 11

  write_math-print :
      (version : Version) (cases : Text → Text → List Text)
      → Fits version cases
      → (i dst src1 src2 sel_math sel_merge : ℕ)
      → write_math_with d cases i dst src1 src2 sel_math sel_merge
        ≡ print d version (
            math i dst src1 src2
              (math_of version (sel_math % 11))
              (merge_of (sel_merge % 4))
              (turn_of sel_merge))
  unfolding write_math_with IsCases
  write_math-print version cases fits i dst src1 src2 sel_math sel_merge =
      let below : sel_math % 11 < 11 = mod-lt sel_math (omega arith) in
      let number =
        numbered (math_number version) (math_ops version) (sel_math % 11)
          (fits.in_order ∙ ap (numbers 0) (sym fits.eleven)) (omega (arith, fits.eleven)) in
      let statement =
        ap (λ l. get_or l (sel_math % 11) []) (fits.listed (register d src1) (register d src2))
        ∙ get_or-map _ (math_ops version) (sel_math % 11) MathOp.add []
            (omega (arith, fits.eleven)) in
      simp (
        write_merge-print,
        merge_number-merge_of (sel_merge % 4) (mod-lt sel_merge (omega arith)),
        number,
        statement,
      )

  write_cache-print :
      (version : Version) (i src dst sel : ℕ)
      → write_cache_with d i src dst sel
        ≡ print d version (cache i src dst (merge_of (sel % 4)) (turn_of sel))
  unfolding write_cache_with
  write_cache-print version i src dst sel =
      simp
        (
          write_merge-print,
          decimal_mask,
          merge_number-merge_of (sel % 4) (mod-lt sel (omega arith)),
        )
        (simp append_assoc)

  write_entries-print :
      (version : Version) (i x sel : ℕ)
      → write_entries_with d i x sel
        ≡ print d version (entry i x (merge_of (sel % 4)) (turn_of sel))
  unfolding write_entries_with
  write_entries-print version i x sel =
      simp (write_merge-print, merge_number-merge_of (sel % 4) (mod-lt sel (omega arith)))

-- The writers of a version spell its statements.
pub record Spells (d : Dialect) (version : Version) (w : Writers) : Type 0 where
  pub math_text :
      (i dst src1 src2 sel_math sel_merge : ℕ)
      → w.math i dst src1 src2 sel_math sel_merge
        ≡ print d version (
            math i dst src1 src2
              (math_of version (sel_math % 11))
              (merge_of (sel_merge % 4))
              (turn_of sel_merge))
  pub cache_text :
      (i src dst sel : ℕ)
      → w.cache i src dst sel ≡ print d version (cache i src dst (merge_of (sel % 4)) (turn_of sel))
  pub entries_text :
      (i x sel : ℕ)
      → w.entries i x sel ≡ print d version (entry i x (merge_of (sel % 4)) (turn_of sel))

-- The lists are those of the version.
list-Fits :
    (d : Dialect) (version : Version) (cases : Text → Text → List Text) (ops : List MathOp)
    (number : MathOp → ℕ)
    → IsCases d cases ops
    → map number ops ≡ numbers 0 11
    → length ops ≡ 11
    → math_ops version ≡ ops
    → math_number version ≡ number
    → Fits d version cases
list-Fits d version cases ops number listed ordered eleven same_ops same_number = record {
  listed = subst (λ o. IsCases d cases o) (sym same_ops) listed;
  in_order =
      subst (λ o. map (math_number version) o ≡ numbers 0 11) (sym same_ops)
        (subst (λ f. map f ops ≡ numbers 0 11) (sym same_number) ordered);
  eleven = ap length same_ops ∙ eleven;
}

kawpow-Fits :
    (d : Dialect) (version : Version)
    → math_ops version ≡ kawpow_ops
    → math_number version ≡ kawpow_number
    → Fits d version (kawpow_cases d)
unfolding numbers
kawpow-Fits d version =
    list-Fits d version (kawpow_cases d) kawpow_ops kawpow_number (kawpow_cases-map d) refl refl

progpow-Fits :
    (d : Dialect) (version : Version)
    → math_ops version ≡ progpow_ops
    → math_number version ≡ progpow_number
    → Fits d version (progpow_cases d)
unfolding numbers
progpow-Fits d version =
    list-Fits d version (progpow_cases d) progpow_ops progpow_number (progpow_cases-map d) refl refl

-- The three writers of one spelling, with the cases of their version.
spells :
    (d : Dialect) (version : Version) (w : Writers) (cases : Text → Text → List Text)
    → Fits d version cases
    → w.math ≡ write_math_with d cases
    → w.cache ≡ write_cache_with d
    → w.entries ≡ write_entries_with d
    → Spells d version w
spells d version w cases fits math_is cache_is entries_is = record {
  math_text = λ i dst src1 src2 sel_math sel_merge.
      ap (λ f. f i dst src1 src2 sel_math sel_merge) math_is
      ∙ write_math-print d version cases fits i dst src1 src2 sel_math sel_merge;
  cache_text = λ i src dst sel.
      ap (λ f. f i src dst sel) cache_is ∙ write_cache-print d version i src dst sel;
  entries_text = λ i x sel. ap (λ f. f i x sel) entries_is ∙ write_entries-print d version i x sel;
}

pub cuda_writers-Spells : (version : Version) → Spells nvidia version (cuda_writers version)
unfolding cuda_writers progpow_nvidia_math progpow_nvidia_cache kawpow_nvidia_math
    kawpow_nvidia_cache meowpow_nvidia_math meowpow_nvidia_cache firopow_nvidia_math
    firopow_nvidia_cache evrprogpow_nvidia_math evrprogpow_nvidia_cache progpow_quai_nvidia_math
    progpow_quai_nvidia_cache progpow_nvidia_entries
cuda_writers-Spells v_0_9_2 =
    spells nvidia v_0_9_2 _ (progpow_cases nvidia) (progpow-Fits nvidia v_0_9_2 refl refl) refl refl
      refl
cuda_writers-Spells v_0_9_3 =
    spells nvidia v_0_9_3 _ (progpow_cases nvidia) (progpow-Fits nvidia v_0_9_3 refl refl) refl refl
      refl
cuda_writers-Spells v_0_9_4 =
    spells nvidia v_0_9_4 _ (progpow_cases nvidia) (progpow-Fits nvidia v_0_9_4 refl refl) refl refl
      refl
cuda_writers-Spells kawpow =
    spells nvidia kawpow _ (kawpow_cases nvidia) (kawpow-Fits nvidia kawpow refl refl) refl refl
      refl
cuda_writers-Spells meowpow =
    spells nvidia meowpow _ (kawpow_cases nvidia) (kawpow-Fits nvidia meowpow refl refl) refl refl
      refl
cuda_writers-Spells firopow =
    spells nvidia firopow _ (kawpow_cases nvidia) (kawpow-Fits nvidia firopow refl refl) refl refl
      refl
cuda_writers-Spells evrprogpow =
    spells nvidia evrprogpow _ (kawpow_cases nvidia) (kawpow-Fits nvidia evrprogpow refl refl) refl
      refl refl
cuda_writers-Spells progpow_quai =
    spells nvidia progpow_quai _ (kawpow_cases nvidia) (kawpow-Fits nvidia progpow_quai refl refl)
      refl refl refl

pub opencl_writers-Spells : (version : Version) → Spells amd version (opencl_writers version)
unfolding opencl_writers progpow_amd_math progpow_amd_cache kawpow_amd_math kawpow_amd_cache
    meowpow_amd_math meowpow_amd_cache firopow_amd_math firopow_amd_cache evrprogpow_amd_math
    evrprogpow_amd_cache progpow_quai_amd_math progpow_quai_amd_cache progpow_amd_entries
opencl_writers-Spells v_0_9_2 =
    spells amd v_0_9_2 _ (progpow_cases amd) (progpow-Fits amd v_0_9_2 refl refl) refl refl refl
opencl_writers-Spells v_0_9_3 =
    spells amd v_0_9_3 _ (progpow_cases amd) (progpow-Fits amd v_0_9_3 refl refl) refl refl refl
opencl_writers-Spells v_0_9_4 =
    spells amd v_0_9_4 _ (progpow_cases amd) (progpow-Fits amd v_0_9_4 refl refl) refl refl refl
opencl_writers-Spells kawpow =
    spells amd kawpow _ (kawpow_cases amd) (kawpow-Fits amd kawpow refl refl) refl refl refl
opencl_writers-Spells meowpow =
    spells amd meowpow _ (kawpow_cases amd) (kawpow-Fits amd meowpow refl refl) refl refl refl
opencl_writers-Spells firopow =
    spells amd firopow _ (kawpow_cases amd) (kawpow-Fits amd firopow refl refl) refl refl refl
opencl_writers-Spells evrprogpow =
    spells amd evrprogpow _ (kawpow_cases amd) (kawpow-Fits amd evrprogpow refl refl) refl refl refl
opencl_writers-Spells progpow_quai =
    spells amd progpow_quai _ (kawpow_cases amd) (kawpow-Fits amd progpow_quai refl refl) refl refl
      refl
