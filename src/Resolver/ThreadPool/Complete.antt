-- ===== src/Resolver/ThreadPool/Complete.antt =====
-- sources/resolver/cpu/thread_pool.cpp: a batch from `runAsync` to the end of `wait`.
use mathlib.Core.List.{append_assoc}
use native.Mathlib.Omega.{arith}
use luminousminer.Prelude.{
  ℕ, ◌+◌, ◌*◌, ◌^◌, ◌≤◌, ◌<◌, ◌≡◌, refl, sym, subst, ◌∙◌, true, false, inl, inr, some, Option-cases,
  List, [], ◌∷◌, ◌++◌, leb, ◌==◌, ◌||◌, get_elem?, length,
}
use luminousminer.Prelude.Word.{u64}
use luminousminer.Device.AtomicCounter
use luminousminer.Device.AtomicCounter.{AtomicCounter}
use luminousminer.Resolver.ThreadPool.{
  Phase, waiting, pulling, drained, Worker, Slice, ThreadPool, min, grain_of, run_async, step,
  run_steps,
}
use luminousminer.Resolver.ThreadPool.Sums.{sum}
use luminousminer.Resolver.ThreadPool.Batch.{
  IsCover, IsBatch, IsWorker, AllWorkers, AllWorkers-get, owes, overshoot, keep_slices,
  wake-IsBatch, pull-IsBatch, leave-IsBatch,
}

module _ (g total grain n : ℕ) (some_grain : 0 < grain) (few : n < 2 ^ 32)
    (room : total + grain + n * grain < 2 ^ 64) where
  worker-IsBatch :
      (slices : List Slice) (i last : ℕ) (phase : Phase) (p : ThreadPool)
      → get_elem? p.workers i ≡ some (record { last_generation = last; phase = phase })
      → IsBatch g total grain n slices p
      → IsBatch g total grain n (slices ++ (step i p).0) (step i p).1
  unfolding step IsWorker
  worker-IsBatch slices i last waiting p at_i b =
      rw (at_i, step) (wake-IsBatch g total grain n some_grain few room slices i last p at_i b)
  worker-IsBatch slices i last (pulling t m) p at_i b =
      let ok = AllWorkers-get g total grain p.workers i _ at_i b.workers in
      let (same, same_total, same_grain) = ok in
      let found : get_elem? p.workers i
          ≡ some (record { last_generation = last; phase = pulling total grain }) =
        rw (same_total, same_grain) at (at_i) in
      rw (found, step)
        (pull-IsBatch g total grain n some_grain few room slices i last p found same b)
  worker-IsBatch slices i last drained p at_i b =
      let ok = AllWorkers-get g total grain p.workers i _ at_i b.workers in
      rw (at_i, step) (leave-IsBatch g total grain n some_grain few room slices i last p at_i ok b)

  pub step-IsBatch :
      (slices : List Slice) (i : ℕ) (p : ThreadPool)
      → IsBatch g total grain n slices p
      → IsBatch g total grain n (slices ++ (step i p).0) (step i p).1
  unfolding step
  step-IsBatch slices i p b = elim (Option-cases (get_elem? p.workers i)) [
    | inl nobody ↦ rw (nobody, step) (keep_slices g total grain n some_grain few room slices p b)
    | inr (w, at_i) ↦ worker-IsBatch slices i w.last_generation w.phase p at_i b
  ]

  pub run_steps-IsBatch :
      (steps : List ℕ) (slices : List Slice) (p : ThreadPool)
      → IsBatch g total grain n slices p
      → IsBatch g total grain n (slices ++ (run_steps steps p).0) (run_steps steps p).1
  unfolding run_steps
  run_steps-IsBatch [] slices p b = keep_slices g total grain n some_grain few room slices p b
  run_steps-IsBatch (i ∷ is) slices p b =
      let later =
        run_steps-IsBatch is (slices ++ (step i p).0) (step i p).1 (step-IsBatch slices i p b) in
      subst (λ ss. IsBatch g total grain n ss (run_steps is (step i p).1).1)
        (append_assoc slices _ _) later

-- Every worker waits and has not seen the generation.
unfoldable pub AllUnseen : ℕ → List Worker → Type 0
AllUnseen g [] = Unit
AllUnseen g (w ∷ ws) = (w.phase ≡ waiting) × ((g == w.last_generation) ≡ false) × AllUnseen g ws

-- A pool that can start a batch, as it is before the first one and after each that is done.
pub record IsReady (p : ThreadPool) : Type 0 where
  pub size : length p.workers ≡ p.pool_size
  pub parallel : 1 < p.pool_size
  pub few : p.pool_size < 2 ^ 32
  pub callback : p.callback ≡ true
  pub unseen : AllUnseen (u64 (p.generation + 1)) p.workers

AllUnseen-AllWorkers :
    (g total grain : ℕ) (ws : List Worker)
    → AllUnseen g ws
    → AllWorkers g total grain ws × (sum (owes g) ws ≡ length ws) × (sum (overshoot g grain) ws ≡ 0)
unfolding AllUnseen AllWorkers IsWorker owes overshoot sum
AllUnseen-AllWorkers g total grain [] h = (tt, refl, refl)
AllUnseen-AllWorkers g total grain (w ∷ ws) (waits, new, h) =
    let (ok, owed, shot) = AllUnseen-AllWorkers g total grain ws h in
    rw (waits, new) ((tt, ok), omega (arith, owed), omega (arith, shot))

pub grain_of-positive : (pool_size count grain : ℕ) → 0 < grain_of pool_size count grain
unfolding grain_of
grain_of-positive pool_size count grain = ground arith

dispatched : (size count : ℕ) → 1 < size → 0 < count → (leb size 1 || count == 0) ≡ false
dispatched size count h k = ground arith

pub run_async-IsBatch :
    (count grain : ℕ) (p : ThreadPool)
    → IsReady p
    → 0 < count
    → IsBatch
        (u64 (p.generation + 1))
        count
        (grain_of p.pool_size count grain)
        p.pool_size
        []
        (run_async count grain p).1
unfolding run_async AtomicCounter.store IsCover
run_async-IsBatch count grain p ready some_count =
    let g = u64 (p.generation + 1) in
    let n = grain_of p.pool_size count grain in
    let positive : 0 < n = grain_of-positive p.pool_size count grain in
    let (ok, owed, shot) = AllUnseen-AllWorkers g count n p.workers ready.unseen in
    rw (dispatched p.pool_size count ready.parallel some_count) (record {
      generation = refl;
      batch_total = refl;
      batch_grain = refl;
      callback = ready.callback;
      count = ready.size;
      workers = ok;
      remaining = sym (owed ∙ ready.size);
      cover = ground (arith, some_count);
      bound = omega (arith, positive);
      over = λ more. omega (arith, shot, more);
    })

min_reached : (a b : ℕ) → b ≤ a → min a b ≡ b
min_reached a b h = ground arith

finished : (g grain : ℕ) (w : Worker) → 0 < grain → owes g w ≡ 0 → 0 < overshoot g grain w
unfolding owes overshoot
finished g grain w h k = ground arith

all_finished :
    (g grain : ℕ) (ws : List Worker)
    → 0 < length ws
    → 0 < grain
    → sum (owes g) ws ≡ 0
    → 0 < sum (overshoot g grain) ws
unfolding sum
all_finished g grain [] some_worker h k = elim some_worker [ ]
all_finished g grain (w ∷ ws) some_worker h k =
    let first = finished g grain w h (omega (arith, k)) in omega (arith, first)

-- For a pool that can start a batch, a positive count, and a count that leaves room for one grain
-- and another for each worker below 2 ^ 64: in whatever order the workers take their steps, once no
-- worker remains, the calls of the callback cut [0, count) into slices without a gap, an overlap or
-- an empty slice.
pub batch_is_complete :
    (count grain : ℕ) (p : ThreadPool) (steps : List ℕ)
    → IsReady p
    → 0 < count
    → count + grain_of p.pool_size count grain + p.pool_size * grain_of p.pool_size count grain
      < 2 ^ 64
    → (run_steps steps (run_async count grain p).1).1.remaining ≡ 0
    → IsCover 0 (run_steps steps (run_async count grain p).1).0 count
batch_is_complete count grain p steps ready some_count room done =
    let n = grain_of p.pool_size count grain in
    let g = u64 (p.generation + 1) in
    let positive = grain_of-positive p.pool_size count grain in
    let b =
      run_steps-IsBatch g count n p.pool_size positive ready.few room steps []
        (run_async count grain p).1 (run_async-IsBatch count grain p ready some_count) in
    let last = (run_steps steps (run_async count grain p).1).1 in
    let workers_left : 0 < length last.workers = omega (arith, b.count, ready.parallel) in
    let shot = all_finished g n last.workers workers_left positive (sym b.remaining ∙ done) in
    subst (IsCover 0 _) (min_reached _ _ (b.over shot)) b.cover
