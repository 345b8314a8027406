-- ===== src/Resolver/ThreadPool/Again.antt =====
-- sources/resolver/cpu/thread_pool.cpp: the pool before its first batch, and after each batch.
use native.Mathlib.Omega.{arith}
use luminousminer.Prelude.{
  ℕ, zero, suc, ◌+◌, ◌*◌, ◌^◌, ◌<◌, ◌≡◌, refl, sym, ap, ◌∙◌, true, false, Bool-cases, inl, inr,
  Option-cases, List, [], ◌∷◌, ltb, ◌==◌, leb, ◌||◌, get_elem?, length, some,
}
use luminousminer.Prelude.Word.{u64}
use luminousminer.Resolver.ThreadPool.{
  Phase, waiting, pulling, drained, Worker, ThreadPool, new_pool, set_callback, replicate_workers,
  grain_of, run_async, wake, pull, leave, step, run_steps,
}
use luminousminer.Resolver.ThreadPool.Sums.{sum}
use luminousminer.Resolver.ThreadPool.Batch.{owes}
use luminousminer.Resolver.ThreadPool.Complete.{
  IsReady, AllUnseen, run_steps-IsBatch, run_async-IsBatch, grain_of-positive,
}

length-replicate_workers : (n : ℕ) → length (replicate_workers n) ≡ n
length-replicate_workers zero = refl
length-replicate_workers (suc n) = ap suc (length-replicate_workers n)

replicate_workers-AllUnseen : (n : ℕ) → AllUnseen 1 (replicate_workers n)
unfolding AllUnseen
replicate_workers-AllUnseen zero = tt
replicate_workers-AllUnseen (suc n) = (refl, refl, replicate_workers-AllUnseen n)

-- A new pool of more than one and fewer than 2 ^ 32 workers, once its callback is set, can start a
-- batch.
pub new_pool-IsReady : (n : ℕ) → 1 < n → n < 2 ^ 32 → IsReady (set_callback (new_pool n))
unfolding new_pool set_callback
new_pool-IsReady n parallel few =
    let some_worker : ltb 0 n ≡ true = ground (arith, parallel) in
    let several : ltb 1 n ≡ true = ground (arith, parallel) in
    rw (some_worker, several)
      (record {
        size = length-replicate_workers n;
        parallel = parallel;
        few = few;
        callback = refl;
        unseen = replicate_workers-AllUnseen n;
      })

worker-pool_size :
    (i last : ℕ) (phase : Phase) (p : ThreadPool)
    → get_elem? p.workers i ≡ some (record { last_generation = last; phase = phase })
    → (step i p).1.pool_size ≡ p.pool_size
unfolding step wake pull leave
worker-pool_size i last waiting p at_i = elim (Bool-cases (p.generation == last)) [
  | inl hit ↦ rw (at_i, step, hit) refl
  | inr miss ↦ rw (at_i, step, miss) refl
]
worker-pool_size i last (pulling t m) p at_i = elim (Bool-cases (ltb p.cursor.current t)) [
  | inl hit ↦ rw (at_i, step, hit) refl
  | inr miss ↦ rw (at_i, step, miss) refl
]
worker-pool_size i last drained p at_i = rw (at_i, step) refl

step-pool_size : (i : ℕ) (p : ThreadPool) → (step i p).1.pool_size ≡ p.pool_size
unfolding step
step-pool_size i p = elim (Option-cases (get_elem? p.workers i)) [
  | inl nobody ↦ rw (nobody, step) refl
  | inr (w, at_i) ↦ worker-pool_size i w.last_generation w.phase p at_i
]

run_steps-pool_size :
    (steps : List ℕ) (p : ThreadPool) → (run_steps steps p).1.pool_size ≡ p.pool_size
unfolding run_steps
run_steps-pool_size [] p = refl
run_steps-pool_size (i ∷ is) p = run_steps-pool_size is (step i p).1 ∙ step-pool_size i p

run_async-pool_size :
    (count grain : ℕ) (p : ThreadPool) → (run_async count grain p).1.pool_size ≡ p.pool_size
unfolding run_async
run_async-pool_size count grain p = elim (Bool-cases (leb p.pool_size 1 || count == 0)) [
  | inl hit ↦ rw hit refl
  | inr miss ↦ rw miss refl
]

next_differs : (m last : ℕ) → (u64 m == last) ≡ true → (u64 (u64 m + 1) == last) ≡ false
next_differs m last h = ground (arith, h)

rested :
    (m last : ℕ) (phase : Phase)
    → owes (u64 m) (record { last_generation = last; phase = phase }) ≡ 0
    → (phase ≡ waiting) × ((u64 (u64 m + 1) == last) ≡ false)
unfolding owes
rested m last waiting h = (refl, next_differs m last (ground (arith, h)))
rested m last (pulling t n) h = ground (arith, h)
rested m last drained h = ground (arith, h)

rested-AllUnseen :
    (m : ℕ) (ws : List Worker) → sum (owes (u64 m)) ws ≡ 0 → AllUnseen (u64 (u64 m + 1)) ws
unfolding sum AllUnseen
rested-AllUnseen m [] h = tt
rested-AllUnseen m (w ∷ ws) h =
    let (waits, new) = rested m w.last_generation w.phase (omega (arith, h)) in
    (waits, new, rested-AllUnseen m ws (omega (arith, h)))

-- For a pool that can start a batch, a positive count, and a count that leaves room for one grain
-- and another for each worker below 2 ^ 64: in whatever order the workers take their steps, once no
-- worker remains, the pool can start a batch again.
pub run_steps-IsReady :
    (count grain : ℕ) (p : ThreadPool) (steps : List ℕ)
    → IsReady p
    → 0 < count
    → count + grain_of p.pool_size count grain + p.pool_size * grain_of p.pool_size count grain
      < 2 ^ 64
    → (run_steps steps (run_async count grain p).1).1.remaining ≡ 0
    → IsReady (run_steps steps (run_async count grain p).1).1
run_steps-IsReady count grain p steps ready some_count room done =
    let n = grain_of p.pool_size count grain in
    let g = u64 (p.generation + 1) in
    let positive = grain_of-positive p.pool_size count grain in
    let b =
      run_steps-IsBatch g count n p.pool_size positive ready.few room steps []
        (run_async count grain p).1 (run_async-IsBatch count grain p ready some_count) in
    let size =
      run_steps-pool_size steps (run_async count grain p).1 ∙ run_async-pool_size count grain p in
    record {
      size = b.count ∙ sym size;
      parallel = omega (arith, size, ready.parallel);
      few = omega (arith, size, ready.few);
      callback = b.callback;
      unseen = rw b.generation (rested-AllUnseen (p.generation + 1) _ (sym b.remaining ∙ done));
    }
