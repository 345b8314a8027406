-- ===== src/Algo/ProgPow/Registers.antt =====
-- sources/algo/progpow/progpow.cpp: the two orders of the registers are permutations.
use native.Mathlib.Nat.{mod-lt}
use native.Mathlib.Omega.{arith}
use luminousminer.Prelude.{
  ℕ, zero, suc, ◌+◌, ◌%◌, ◌^◌, ◌<◌, ◌≡◌, ◌&&◌, refl, ap, subst, ◌∙◌, some, List, [], ◌∷◌, ltb, leb,
  ◌==◌, if◌then◌else◌, get_elem?, numbers, set, length, length-set, get_elem?-set_self,
  get_elem?-set_ne, ℕ_discrete,
}
use luminousminer.Prelude.Word.{sub32}
use luminousminer.Algo.Crypto.{kiss99}
use luminousminer.Algo.ProgPow.{swap, Round, shuffle, seed_random, initialize_round}

-- How often a number stands in a list.
unfoldable pub count : ℕ → List ℕ → ℕ
count v [] = 0
count v (x ∷ xs) = (if x == v then 1 else 0) + count v xs

-- Each of the numbers below n stands in the list once, and nothing else does.
pub record IsOrder (n : ℕ) (xs : List ℕ) : Type 0 where
  pub size : length xs ≡ n
  pub once : (v : ℕ) → count v xs ≡ (if ltb v n then 1 else 0)

count-set :
    (v : ℕ) (xs : List ℕ) (i a b : ℕ)
    → get_elem? xs i ≡ some a
    → count v (set xs i b) + (if a == v then 1 else 0) ≡ count v xs + (if b == v then 1 else 0)
unfolding count
count-set v [] i a b h = ground (arith, h)
count-set v (x ∷ xs) zero a b h = let same : x ≡ a = ground (arith, h) in rw same (omega arith)
count-set v (x ∷ xs) (suc i) a b h = let e = count-set v xs i a b h in omega (arith, e)

get_elem?-lt : (xs : List ℕ) (i : ℕ) → i < length xs → (a : ℕ) × (get_elem? xs i ≡ some a)
get_elem?-lt [] i h = elim h [ ]
get_elem?-lt (x ∷ xs) zero h = (x, refl)
get_elem?-lt (x ∷ xs) (suc i) h = get_elem?-lt xs i (omega arith)

-- The element at j, whether or not it was overwritten by itself.
get_elem?-set_by_it :
    (xs : List ℕ) (i j b : ℕ)
    → i < length xs
    → get_elem? xs j ≡ some b
    → get_elem? (set xs i b) j ≡ some b
get_elem?-set_by_it xs i j b h k = elim (ℕ_discrete i j) [
  | yes same ↦ subst (λ x. get_elem? (set xs i b) x ≡ some b) same (get_elem?-set_self xs i b h)
  | no other ↦ get_elem?-set_ne xs b other ∙ k
]

swap_lem :
    (xs : List ℕ) (i j a b : ℕ)
    → get_elem? xs i ≡ some a
    → get_elem? xs j ≡ some b
    → swap xs i j ≡ some (set (set xs i b) j a)
unfolding swap
swap_lem xs i j a b h k = rw (h, k, swap) refl

shuffle_step :
    (i : ℕ) (r : Round) (dst src : List ℕ)
    → swap r.dst (suc i) ((kiss99 r.random).0 % (suc i + 1)) ≡ some dst
    → swap r.src (suc i) ((kiss99 (kiss99 r.random).1).0 % (suc i + 1)) ≡ some src
    → shuffle (suc i) r
      ≡ shuffle i (record { random = (kiss99 (kiss99 r.random).1).1; dst = dst; src = src })
unfolding shuffle
shuffle_step i r dst src h k = rw (h, k, shuffle) refl

swap-IsOrder :
    (n : ℕ) (xs : List ℕ) (i j : ℕ)
    → i < n
    → j < n
    → IsOrder n xs
    → (ys : List ℕ) × (swap xs i j ≡ some ys) × IsOrder n ys
unfolding swap
swap-IsOrder n xs i j hi hj o =
    let inside : i < length xs = omega (arith, hi, o.size) in
    let (a, at_i) = get_elem?-lt xs i inside in
    let (b, at_j) = get_elem?-lt xs j (omega (arith, hj, o.size)) in
    let still = get_elem?-set_by_it xs i j b inside at_j in
    (
      set (set xs i b) j a,
      swap_lem xs i j a b at_i at_j,
      record {
        size = length-set (set xs i b) j a ∙ length-set xs i b ∙ o.size;
        once = λ v.
            let first = count-set v xs i a b at_i in
            let second = count-set v (set xs i b) j b a still in
            omega (arith, first, second, o.once v);
      },
    )

shuffle-IsOrder :
    (n i : ℕ) (r : Round)
    → i < n
    → IsOrder n r.dst
    → IsOrder n r.src
    → (r' : Round) × (shuffle i r ≡ some r') × IsOrder n r'.dst × IsOrder n r'.src
unfolding shuffle
shuffle-IsOrder n zero r h d s = (r, refl, d, s)
shuffle-IsOrder n (suc i) r h d s =
    let first = kiss99 r.random in
    let second = kiss99 first.1 in
    let fits = λ (x : ℕ). mod-lt x {m = suc i + 1} (omega arith) in
    let (dst, swapped, d') =
      swap-IsOrder n r.dst (suc i) (first.0 % (suc i + 1)) h (omega (arith, h, fits first.0)) d in
    let (src, swapped', s') =
      swap-IsOrder n r.src (suc i) (second.0 % (suc i + 1)) h (omega (arith, h, fits second.0)) s in
    let (r', done, d2, s2) =
      shuffle-IsOrder n i (record { random = second.1; dst = dst; src = src }) (omega (arith, h)) d'
        s' in
    (r', shuffle_step i r dst src swapped swapped' ∙ done, d2, s2)

length-numbers : (start n : ℕ) → length (numbers start n) ≡ n
unfolding numbers
length-numbers start zero = refl
length-numbers start (suc n) = ap suc (length-numbers (start + 1) n)

count-numbers :
    (v start n : ℕ)
    → count v (numbers start n) ≡ (if leb start v && ltb v (start + n) then 1 else 0)
unfolding count numbers
count-numbers v start zero = ground arith
count-numbers v start (suc n) = ground (arith, count-numbers v (start + 1) n)

-- For a positive number of registers below 2 ^ 32, and whatever the period: `initializeRound` never
-- leaves its arrays, and both orders of the registers name each register exactly once.
pub initialize_round-IsOrder :
    (period regs : ℕ)
    → 0 < regs
    → regs < 2 ^ 32
    → (r : Round) × (initialize_round period regs ≡ some r)
      × IsOrder regs r.dst
      × IsOrder regs r.src
unfolding initialize_round
initialize_round-IsOrder period regs some_register few =
    let start : IsOrder regs (numbers 0 regs) = record {
      size = length-numbers 0 regs;
      once = λ v. ground (arith, count-numbers v 0 regs);
    } in
    shuffle-IsOrder regs (sub32 regs 1)
      (record { random = seed_random period; dst = numbers 0 regs; src = numbers 0 regs })
      (omega arith) start start
