-- ===== src/Algo/Prime/Largest.antt =====
-- sources/algo/math.cpp: `largestPrime` against the definition of a prime.
use native.Mathlib.Omega.{arith}
use luminousminer.Prelude.{
  ℕ, zero, suc, ◌-◌, ◌*◌, ◌%◌, ◌^◌, ◌≤◌, ◌<◌, ◌≡◌, refl, sym, ap, subst, ◌∙◌, true, false, some,
  inl, inr, ltb, ◌==◌, ℕ_discrete,
}
use luminousminer.Prelude.Word.{sub64}
use luminousminer.Algo.Prime.Division.{IsPrime, Decides, is_odd_prime-Decides}
use luminousminer.Algo.Prime.{is_odd_prime, prime_at_most, largest_prime}

three-IsPrime : IsPrime 3
three-IsPrime = record {
  above_one = omega arith;
  no_divisor = λ e some_factor below divides.
      let two : e ≡ 2 = omega (arith, some_factor, below) in
      let one : 3 % e ≡ 3 % 2 = ap (λ k. 3 % k) two in omega (arith, one, divides);
}

two-IsPrime : IsPrime 2
two-IsPrime = record {
  above_one = omega arith;
  no_divisor = λ e some_factor below. absurd (omega arith);
}

even-not-IsPrime : (k : ℕ) → 2 < k → k % 2 ≡ 0 → ¬ IsPrime k
even-not-IsPrime k h even p = p.no_divisor 2 (omega arith) h even

pub record IsLargestPrime (n p : ℕ) : Type 0 where
  pub prime : IsPrime p
  pub at_most : p ≤ n
  pub largest : (q : ℕ) → IsPrime q → q ≤ n → q ≤ p

-- Past an odd number that is no prime, and the even one below it.
two_down :
    (n p : ℕ) → n % 2 ≡ 1 → 5 ≤ n → ¬ IsPrime n → IsLargestPrime (n - 2) p → IsLargestPrime n p
two_down n p odd five composite l = record {
  prime = l.prime;
  at_most = omega (arith, l.at_most);
  largest = λ q q_prime q_le. elim (ℕ_discrete q n) [
    | yes same ↦ absurd (composite (subst IsPrime same q_prime))
    | no other ↦ elim (ℕ_discrete q (n - 1)) [
      | yes even ↦
          absurd (even-not-IsPrime q (omega (arith, five)) (omega (arith, odd, five)) q_prime)
      | no other' ↦ l.largest q q_prime (omega (arith, q_le, other, other'))
    ]
  ];
}

prime_at_most_step :
    (fuel n : ℕ)
    → is_odd_prime n ≡ some false
    → prime_at_most (suc fuel) n ≡ prime_at_most fuel (sub64 n 2)
unfolding prime_at_most
prime_at_most_step fuel n test = rw (test, prime_at_most) refl

prime_at_most-IsLargestPrime :
    (fuel n : ℕ)
    → n % 2 ≡ 1
    → 3 ≤ n
    → n < (2 ^ 32 - 1) * (2 ^ 32 - 1)
    → n < fuel
    → (p : ℕ) × (prime_at_most fuel n ≡ some p) × IsLargestPrime n p
unfolding prime_at_most Decides
prime_at_most-IsLargestPrime zero n odd three small enough = absurd (omega arith)
prime_at_most-IsLargestPrime (suc fuel) n odd three small enough =
    elim (is_odd_prime-Decides n odd three small) [
      | inl (test, n_prime) ↦ (
        n,
        rw (test, prime_at_most) refl,
        record { prime = n_prime; at_most = omega arith; largest = λ q q_prime q_le. q_le },
      )
      | inr (test, composite) ↦ elim (ℕ_discrete n 3) [
        | yes same ↦ absurd (composite (subst IsPrime (sym same) three-IsPrime))
        | no other ↦
            let five : 5 ≤ n = omega arith in
            let next : sub64 n 2 ≡ n - 2 = omega (arith, small) in
            let (p, found, l) =
              prime_at_most-IsLargestPrime fuel (n - 2) (omega arith) (omega arith)
                (omega (arith, small)) (omega arith) in
            (
              p,
              prime_at_most_step fuel n test ∙ ap (prime_at_most fuel) next ∙ found,
              two_down n p odd five composite l,
            )
      ]
    ]

-- From 2 up to below (2 ^ 32 - 1) ^ 2, where the square of the divisor does not wrap, `largestPrime`
-- ends, and its result is a prime, is at most the number, and no prime in between is larger.
pub largest_prime_lem :
    (n : ℕ)
    → 2 ≤ n
    → n < (2 ^ 32 - 1) * (2 ^ 32 - 1)
    → (p : ℕ) × (largest_prime n ≡ some p) × IsLargestPrime n p
unfolding largest_prime
largest_prime_lem n two small = elim (ℕ_discrete n 2) [
  | yes same ↦ (
    2,
    rw same refl,
    record {
      prime = two-IsPrime;
      at_most = two;
      largest = λ q q_prime q_le. omega (arith, q_le, same);
    },
  )
  | no other ↦
      let above : ltb n 2 ≡ false = ground (arith, two) in
      let unequal : (n == 2) ≡ false = ground (arith, other) in
      elim (ℕ_discrete (n % 2) 0) [
        | yes even ↦
            let test : (n % 2 == 0) ≡ true = ground (arith, even) in
            let (p, found, l) =
              prime_at_most-IsLargestPrime (suc n) (n - 1) (omega arith) (omega arith)
                (omega (arith, small)) (omega arith) in
            (
              p,
              rw (above, unequal, test) found,
              record {
                prime = l.prime;
                at_most = omega (arith, l.at_most);
                largest = λ q q_prime q_le. elim (ℕ_discrete q n) [
                  | yes same ↦
                      absurd (even-not-IsPrime q (omega arith) (omega (arith, even)) q_prime)
                  | no lower ↦ l.largest q q_prime (omega arith)
                ];
              },
            )
        | no odd ↦
            let test : (n % 2 == 0) ≡ false = ground (arith, odd) in
            let (p, found, l) =
              prime_at_most-IsLargestPrime (suc n) n (omega arith) (omega arith) small
                (omega arith) in
            (p, rw (above, unequal, test) found, l)
      ]
]
