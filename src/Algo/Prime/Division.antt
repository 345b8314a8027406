-- ===== src/Algo/Prime/Division.antt =====
-- sources/algo/math.cpp: the trial division of `isOddPrime` against the definition of a prime.
use native.Mathlib.Nat.{div-add-mod, mul-mod_left, mul-le-mul, mul-le-mul_left}
use native.Mathlib.Omega.{arith}
use luminousminer.Prelude.{
  ℕ, zero, suc, ◌+◌, ◌-◌, ◌*◌, ◌/◌, ◌%◌, ◌^◌, ◌≤◌, ◌<◌, ◌≡◌, ◌≢◌, refl, sym, ap, subst, ◌∙◌, Bool,
  true, false, Option, some, ◌⊎◌, inl, inr, ltb, ◌==◌, dec_lt, ℕ_discrete,
}
use luminousminer.Prelude.Word.{u64}
use luminousminer.Algo.Prime.{odd_prime_from, is_odd_prime}

-- The usual definition.
pub record IsPrime (n : ℕ) : Type 0 where
  pub above_one : 1 < n
  pub no_divisor : (e : ℕ) → 1 < e → e < n → n % e ≢ 0

odd_by_even : (n m : ℕ) → n % 2 ≡ 1 → n % (2 * m) ≢ 0
odd_by_even n m odd h =
    let e = div-add-mod n (2 * m) in
    let q : (2 * m) * (n / (2 * m)) ≡ 2 * (m * (n / (2 * m))) = grind arith in
    omega (arith, e, q, odd, h)

-- Both factors of a product that lies above one of them.
factor_bounds : (n e q : ℕ) → e * q ≡ n → 1 < e → e < n → (1 < q) × (q < n)
factor_bounds n e zero whole h k = (grind arith, grind arith)
factor_bounds n e (suc zero) whole h k = (grind arith, grind arith)
factor_bounds n e (suc (suc q)) whole h k = (omega arith, grind arith)

-- A divisor comes with its cofactor, which divides too.
cofactor :
    (n e : ℕ) → 1 < e → e < n → n % e ≡ 0 → (q : ℕ) × (e * q ≡ n) × (1 < q) × (q < n) × (n % q ≡ 0)
cofactor n e some_factor below h =
    let whole : e * (n / e) ≡ n = omega (arith, div-add-mod n e, h) in
    let (more, less) = factor_bounds n e (n / e) whole some_factor below in
    (n / e, whole, more, less, ap (λ k. k % (n / e)) (sym whole) ∙ mul-mod_left e (n / e))

-- No divisor below d.
NoneBelow : ℕ → ℕ → Type 0
NoneBelow n d = (e : ℕ) → 1 < e → e < d → n % e ≢ 0

both_large : (n e q d : ℕ) → e * q ≡ n → d ≤ e → d ≤ q → d * d ≤ n
both_large n e q d whole h k = let m : d * d ≤ e * q = mul-le-mul h k in omega (arith, m, whole)

-- Past the square root nothing is left to try.
square-IsPrime : (n d : ℕ) → 1 < n → NoneBelow n d → n < d * d → IsPrime n
unfolding NoneBelow
square-IsPrime n d h tried past = record {
  above_one = h;
  no_divisor = λ e some_factor below divides. elim (dec_lt e d) [
    | yes small ↦ tried e some_factor small divides
    | no large ↦
        let (q, whole, more, less, too) = cofactor n e some_factor below divides in
        elim (dec_lt q d) [
          | yes small ↦ tried q more small too
          | no large' ↦ omega (arith, both_large n e q d whole (omega arith) (omega arith), past)
        ]
  ];
}

next-NoneBelow :
    (n m : ℕ) → n % 2 ≡ 1 → NoneBelow n (2 * m + 1) → n % (2 * m + 1) ≢ 0 → NoneBelow n (2 * m + 3)
unfolding NoneBelow
next-NoneBelow n m odd tried this e some_factor below = elim (dec_lt e (2 * m + 1)) [
  | yes small ↦ tried e some_factor small
  | no large ↦ elim (ℕ_discrete e (2 * m + 1)) [
    | yes same ↦ subst (λ k. n % k ≢ 0) (sym same) this
    | no other ↦
        let next : 2 * (m + 1) ≡ e = omega arith in
        subst (λ k. n % k ≢ 0) next (odd_by_even n (m + 1) odd)
  ]
]

-- What the loop of `isOddPrime` decides.
unfoldable pub Decides : ℕ → Option Bool → Type 0
Decides n r = ((r ≡ some true) × IsPrime n) ⊎ ((r ≡ some false) × ¬ IsPrime n)

-- The divisor stays below 2 ^ 32, so that its square does not wrap.
square_fits : (d : ℕ) → d < 2 ^ 32 → u64 (d * d) ≡ d * d
square_fits d h =
    let le : d ≤ 2 ^ 32 - 1 = omega arith in
    let m : d * d ≤ (2 ^ 32 - 1) * (2 ^ 32 - 1) = mul-le-mul le le in omega (arith, m)

root_below : (n d : ℕ) → d * d ≤ n → n < (2 ^ 32 - 1) * (2 ^ 32 - 1) → d < 2 ^ 32 - 1
root_below n d h k = elim (dec_lt d (2 ^ 32 - 1)) [
  | yes small ↦ small
  | no large ↦
      let le : 2 ^ 32 - 1 ≤ d = omega arith in
      let m : (2 ^ 32 - 1) * (2 ^ 32 - 1) ≤ d * d = mul-le-mul le le in
      absurd (omega (arith, m, h, k))
]

lt_square : (d : ℕ) → 1 < d → d < d * d
lt_square d h = let m : d * 2 ≤ d * d = mul-le-mul_left d h in omega (arith, m, h)

module _ (n : ℕ) (odd : n % 2 ≡ 1) (three : 3 ≤ n) (small : n < (2 ^ 32 - 1) * (2 ^ 32 - 1)) where
  odd_prime_from-Decides :
      (fuel m : ℕ)
      → 1 ≤ m
      → 2 * m + 1 < 2 ^ 32
      → 2 * m + 1 ≤ n + 2
      → n + 2 < 2 * m + 1 + 2 * fuel
      → NoneBelow n (2 * m + 1)
      → Decides n (odd_prime_from fuel (2 * m + 1) n)
  unfolding odd_prime_from Decides
  odd_prime_from-Decides zero m h fits on enough tried = absurd (omega (arith, on, enough))
  odd_prime_from-Decides (suc fuel) m h fits on enough tried =
      let d = 2 * m + 1 in
      let square = square_fits d fits in
      elim (dec_lt n (d * d)) [
        | yes past ↦
            let test : ltb n (u64 (d * d)) ≡ true = rw square (ground (arith, past)) in
            rw test (inl (refl, square-IsPrime n d (omega (arith, three)) tried past))
        | no more ↦
            let test : ltb n (u64 (d * d)) ≡ false = rw square (ground (arith, more)) in
            let below = lt_square d (omega arith) in
            let root = root_below n d (omega (arith, more)) small in
            elim (ℕ_discrete (n % d) 0) [
              | yes divides ↦
                  let zero_rest : (n % d == 0) ≡ true = ground (arith, divides) in
                  rw (test, zero_rest)
                    (inr (
                      refl,
                      λ p. p.no_divisor d (omega arith) (omega (arith, below, more)) divides,
                    ))
              | no other ↦
                  let some_rest : (n % d == 0) ≡ false = ground (arith, other) in
                  let next : u64 (d + 2) ≡ 2 * (m + 1) + 1 = omega (arith, root) in
                  rw (test, some_rest, next)
                    (odd_prime_from-Decides fuel (m + 1) (omega arith) (omega (arith, root))
                      (omega (arith, below, more)) (omega (arith, enough))
                      (subst (NoneBelow n) (omega arith) (next-NoneBelow n m odd tried other)))
            ]
      ]

  pub is_odd_prime-Decides : Decides n (is_odd_prime n)
  unfolding is_odd_prime NoneBelow
  is_odd_prime-Decides =
      odd_prime_from-Decides (suc n) 1 (omega arith) (omega arith) (omega (arith, three))
        (omega arith)
        (λ e some_factor below.
          subst (λ k. n % k ≢ 0) (omega (arith, some_factor, below)) (odd_by_even n 1 odd))
