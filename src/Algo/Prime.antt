-- ===== src/Algo/Prime.antt =====
-- sources/algo/math.cpp: the search of a prime by trial division. `none` means that the fuel ran out;
-- `number + 1` rounds are enough for both loops, since the divisor and the number move by 2.
pub mod Division
pub mod Largest
use luminousminer.Prelude.{
  ℕ, zero, suc, ◌+◌, ◌-◌, ◌*◌, ◌%◌, ◌^◌, Bool, true, false, Option, none, some, ltb, ◌==◌,
  if◌then◌else◌,
}
use luminousminer.Prelude.Word.{u64, sub64}

-- The loop of `isOddPrime` from the divisor d on.
unfoldable pub odd_prime_from : ℕ → ℕ → ℕ → Option Bool
odd_prime_from zero d number = none
odd_prime_from (suc fuel) d number =
    let rest = odd_prime_from fuel (u64 (d + 2)) number in
    if ltb number (u64 (d * d)) then some true else if number % d == 0 then some false else rest

unfoldable pub is_odd_prime : ℕ → Option Bool
unfolding odd_prime_from
is_odd_prime number = odd_prime_from (suc number) 3 number

-- The `while` of `largestPrime`.
unfoldable pub prime_at_most : ℕ → ℕ → Option ℕ
prime_at_most zero number = none
prime_at_most (suc fuel) number = elim (is_odd_prime number) [
  | none ↦ none
  | some found ↦ elim found [ true ↦ some number | false ↦ prime_at_most fuel (sub64 number 2) ]
]

unfoldable pub largest_prime : ℕ → Option ℕ
unfolding prime_at_most is_odd_prime
largest_prime number =
    let odd = if number % 2 == 0 then number - 1 else number in
    if ltb number 2 then some 0 else if number == 2 then some 2 else prime_at_most (suc number) odd
