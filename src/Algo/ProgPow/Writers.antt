-- ===== src/Algo/ProgPow/Writers.antt =====
-- The writers of one statement of a kernel: writeSequenceMathMerge, writeSequenceMergeCache and
-- writeSequenceMergeEntries of sources/algo/progpow/kernel_cuda.cpp and kernel_opencl.cpp, which CUDA and
-- OpenCL spell alike up to a few names.
use luminousminer.Prelude.{
  ℕ, zero, suc, ◌+◌, ◌-◌, ◌/◌, ◌%◌, ◌^◌, List, [], ◌∷◌, ◌++◌, get_or, if◌then◌else◌, ltb,
}
use luminousminer.Prelude.Text.{Text, codes}

-- `std::to_string` of an unsigned number of up to 64 bits, which has at most 20 digits.
abbrev pub digits : ℕ → ℕ → Text → Text
digits zero n rest = rest
digits (suc fuel) n rest =
    let more = digits fuel (n / 10) ((b'0' + n % 10) ∷ rest) in
    if ltb n 10 then (b'0' + n) ∷ rest else more

unfoldable pub decimal : ℕ → Text
decimal n = digits 20 n []

-- What the two languages spell differently.
pub record Dialect : Type 0 where
  pub mix : Text
  pub mul_hi : Text
  pub clz : Text
  pub popcount : Text
  pub entries : List Text

abbrev pub nvidia : Dialect
nvidia = record {
  mix = codes "mix[";
  mul_hi = codes "__umulhi(";
  clz = codes "__clz(";
  popcount = codes "__popc(";
  entries = codes "entries->x" ∷ codes "entries->y" ∷ codes "entries->z" ∷ codes "entries->w" ∷ [];
}

abbrev pub amd : Dialect
amd = record {
  mix = codes "hash[";
  mul_hi = codes "mul_hi(";
  clz = codes "clz(";
  popcount = codes "popcount(";
  entries = codes "entries.x" ∷ codes "entries.y" ∷ codes "entries.z" ∷ codes "entries.w" ∷ [];
}

abbrev pub module_cache : ℕ
module_cache = 4096

module _ (d : Dialect) where
  -- `"mix[" + std::to_string(n) + "]"`.
  abbrev pub register : ℕ → Text
  register n = d.mix ++ decimal n ++ codes "]"

  -- The comment line before a statement.
  abbrev pub remark : ℕ → Text → ℕ → Text
  remark i name n = codes "\t// iter[" ++ decimal i ++ codes "] " ++ name ++ decimal n ++ codes "\n"

  -- The `switch (sel % 4u)` of every writer; no case leaves it out.
  unfoldable pub merge_cases : Text → Text → Text → ℕ → List Text
  merge_cases ret l r sel =
      let turn = decimal (sel / 2 ^ 16 % 31 + 1) in
      (codes "\t" ++ ret ++ codes "(" ++ l ++ codes " * 33) + " ++ r ++ codes ";\n")
      ∷ (codes "\t" ++ ret ++ codes "(" ++ l ++ codes " ^ " ++ r ++ codes ") * 33;\n")
      ∷ (codes "\t"
          ++ ret
          ++ codes "rol_u32("
          ++ l
          ++ codes ", "
          ++ turn
          ++ codes ") ^ "
          ++ r
          ++ codes ";\n")
      ∷ (codes "\t"
          ++ ret
          ++ codes "ror_u32("
          ++ l
          ++ codes ", "
          ++ turn
          ++ codes ") ^ "
          ++ r
          ++ codes ";\n")
      ∷ []

  unfoldable pub write_merge : Text → Text → Text → ℕ → Text
  write_merge ret l r sel = get_or (merge_cases ret l r sel) (sel % 4) []

  -- The cases of `switch (sel_math % 11)` in kawpow.cpp and the files that repeat it.
  unfoldable pub kawpow_cases : Text → Text → List Text
  kawpow_cases l r =
      (codes "\tdata = " ++ l ++ codes " + " ++ r ++ codes ";\n")
      ∷ (codes "\tdata = " ++ l ++ codes " * " ++ r ++ codes ";\n")
      ∷ (codes "\tdata = " ++ d.mul_hi ++ l ++ codes ", " ++ r ++ codes ");\n")
      ∷ (codes "\tdata = min(" ++ l ++ codes ", " ++ r ++ codes ");\n")
      ∷ (codes "\tdata = rol_u32(" ++ l ++ codes ", " ++ r ++ codes ");\n")
      ∷ (codes "\tdata = ror_u32(" ++ l ++ codes ", " ++ r ++ codes ");\n")
      ∷ (codes "\tdata = " ++ l ++ codes " & " ++ r ++ codes ";\n")
      ∷ (codes "\tdata = " ++ l ++ codes " | " ++ r ++ codes ";\n")
      ∷ (codes "\tdata = " ++ l ++ codes " ^ " ++ r ++ codes ";\n")
      ∷ (codes "\tdata = " ++ d.clz ++ l ++ codes ") + " ++ d.clz ++ r ++ codes ");\n")
      ∷ (codes "\tdata = " ++ d.popcount ++ l ++ codes ") + " ++ d.popcount ++ r ++ codes ");\n")
      ∷ []

  -- The cases in the writers of ProgPow itself.
  unfoldable pub progpow_cases : Text → Text → List Text
  progpow_cases l r =
      (codes "\tdata = " ++ d.clz ++ l ++ codes ") + " ++ d.clz ++ r ++ codes ");\n")
      ∷ (codes "\tdata = " ++ d.popcount ++ l ++ codes ") + " ++ d.popcount ++ r ++ codes ");\n")
      ∷ (codes "\tdata = " ++ l ++ codes " + " ++ r ++ codes ";\n")
      ∷ (codes "\tdata = " ++ l ++ codes " * " ++ r ++ codes ";\n")
      ∷ (codes "\tdata = " ++ d.mul_hi ++ l ++ codes ", " ++ r ++ codes ");\n")
      ∷ (codes "\tdata = min(" ++ l ++ codes ", " ++ r ++ codes ");\n")
      ∷ (codes "\tdata = rol_u32(" ++ l ++ codes ", " ++ r ++ codes ");\n")
      ∷ (codes "\tdata = ror_u32(" ++ l ++ codes ", " ++ r ++ codes ");\n")
      ∷ (codes "\tdata = " ++ l ++ codes " & " ++ r ++ codes ";\n")
      ∷ (codes "\tdata = " ++ l ++ codes " | " ++ r ++ codes ";\n")
      ∷ (codes "\tdata = " ++ l ++ codes " ^ " ++ r ++ codes ";\n")
      ∷ []

  -- A writer with the cases of its `switch (sel_math % 11)`.
  unfoldable pub write_math_with : (Text → Text → List Text) → ℕ → ℕ → ℕ → ℕ → ℕ → ℕ → Text
  write_math_with math_cases i dst src1 src2 sel_math sel_merge =
      remark i (codes "sel_math ") (sel_math % 11)
      ++ get_or (math_cases (register src1) (register src2)) (sel_math % 11) []
      ++ remark i (codes "sel_merge ") (sel_merge % 4)
      ++ write_merge (register dst ++ codes " = ") (register dst) (codes "data") sel_merge

  unfoldable pub write_cache_with : ℕ → ℕ → ℕ → ℕ → Text
  write_cache_with i src dst sel =
      remark i (codes "merge ") (sel % 4)
      ++ codes "\tdag_offset = "
      ++ register src
      ++ codes " & "
      ++ decimal (module_cache - 1)
      ++ codes "u;\n"
      ++ write_merge (register dst ++ codes " = ") (register dst) (codes "header_dag[dag_offset]")
          sel

  -- A load beyond the fourth has no name, and `r` stays empty.
  unfoldable pub write_entries_with : ℕ → ℕ → ℕ → Text
  write_entries_with i x sel =
      remark i (codes "merge_entries ") (sel % 4)
      ++ write_merge (register x ++ codes " = ") (register x) (get_or d.entries i []) sel
