-- ===== src/Resolver/ThreadPool/Sums.antt =====
-- Sums over the workers of sources/resolver/cpu/thread_pool.cpp, for what the workers still owe.
use native.Mathlib.Nat.{suc-mul}
use native.Mathlib.Omega.{arith}
use luminousminer.Prelude.{
  ℕ, zero, suc, ◌+◌, ◌*◌, ◌≤◌, ◌<◌, ◌≡◌, refl, ap, dec_lt, some, List, [], ◌∷◌, get_elem?, set,
  length,
}
use luminousminer.Resolver.ThreadPool.{Worker}

module _ (f : Worker → ℕ) where
  unfoldable pub sum : List Worker → ℕ
  sum [] = 0
  sum (w ∷ ws) = f w + sum ws

  -- A worker that changes takes its share out of the sum and puts the new one in.
  pub sum-set :
      (ws : List Worker) (i : ℕ) (old new : Worker)
      → get_elem? ws i ≡ some old
      → sum (set ws i new) + f old ≡ sum ws + f new
  unfolding sum
  sum-set [] i old new h = ground (arith, h)
  sum-set (w ∷ ws) zero old new h =
      let same : w ≡ old = ground (arith, h) in let e : f w ≡ f old = ap f same in omega (arith, e)
  sum-set (w ∷ ws) (suc i) old new h = let e = sum-set ws i old new h in omega (arith, e)

  pub sum-get : (ws : List Worker) (i : ℕ) (w : Worker) → get_elem? ws i ≡ some w → f w ≤ sum ws
  unfolding sum
  sum-get [] i w h = ground (arith, h)
  sum-get (v ∷ ws) zero w h =
      let same : v ≡ w = ground (arith, h) in let e : f v ≡ f w = ap f same in omega (arith, e)
  sum-get (v ∷ ws) (suc i) w h = let e = sum-get ws i w h in omega (arith, e)

  -- A positive sum has a worker that adds to it.
  pub sum-find :
      (ws : List Worker)
      → 0 < sum ws
      → (i : ℕ) × (w : Worker) × (get_elem? ws i ≡ some w) × (0 < f w)
  unfolding sum
  sum-find [] h = elim h [ ]
  sum-find (w ∷ ws) h = elim (dec_lt 0 (f w)) [
    | yes more ↦ (0, w, refl, more)
    | no zero_share ↦ let (i, v, at_i, more) = sum-find ws (omega arith) in (suc i, v, at_i, more)
  ]

-- Shares that add up to one for each worker add up to the number of the workers.
pub sum-complement :
    (f g : Worker → ℕ) (ws : List Worker)
    → ((w : Worker) → f w + g w ≡ 1)
    → sum f ws + sum g ws ≡ length ws
unfolding sum
sum-complement f g [] h = refl
sum-complement f g (w ∷ ws) h =
    let e = sum-complement f g ws h in let o = h w in omega (arith, e, o)

pub sum-le :
    (f : Worker → ℕ) (bound : ℕ) (ws : List Worker)
    → ((w : Worker) → f w ≤ bound)
    → sum f ws ≤ length ws * bound
unfolding sum
sum-le f bound [] h = omega arith
sum-le f bound (w ∷ ws) h = omega (arith, h w, sum-le f bound ws h, suc-mul (length ws) bound)
