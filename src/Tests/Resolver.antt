-- ===== src/Tests/Resolver.antt =====
-- sources/resolver/cpu/thread_pool.cpp at concrete inputs.
use native.Mathlib.Omega.{arith}
use luminousminer.Prelude.{ℕ, ◌≡◌, refl, List, [], ◌∷◌}
use luminousminer.Device.AtomicCounter
use luminousminer.Resolver.ThreadPool.{
  ThreadPool, new_pool, set_callback, grain_of, run_async, wake, pull, leave, step, run_steps,
}
use luminousminer.Resolver.ThreadPool.Batch.{IsCover}
use luminousminer.Resolver.ThreadPool.Complete.{IsReady, AllUnseen, batch_is_complete}
use luminousminer.Resolver.ThreadPool.Progress.{batch_can_finish}

abbrev pub two_workers : ThreadPool
two_workers = set_callback (new_pool 2)

pub two_workers-IsReady : IsReady two_workers
unfolding new_pool set_callback AllUnseen
two_workers-IsReady = record {
  size = refl;
  parallel = omega arith;
  few = omega arith;
  callback = refl;
  unseen = (refl, refl, (refl, refl, tt));
}

-- The second worker takes more slices than the first.
abbrev pub schedule : List ℕ
schedule = 0 ∷ 1 ∷ 1 ∷ 1 ∷ 0 ∷ 1 ∷ 0 ∷ 1 ∷ 1 ∷ 0 ∷ 0 ∷ []

pub schedule_ends : (run_steps schedule (run_async 10 3 two_workers).1).1.remaining ≡ 0
unfolding run_steps step wake pull leave run_async grain_of new_pool set_callback AtomicCounter.add
    AtomicCounter.store
schedule_ends = refl

batch_is_complete_example : IsCover 0 (run_steps schedule (run_async 10 3 two_workers).1).0 10
batch_is_complete_example =
    batch_is_complete 10 3 two_workers schedule two_workers-IsReady (omega arith)
      (unfold new_pool set_callback grain_of in omega arith) schedule_ends

-- The first worker found the batch drained before the second one woke up.
batch_can_finish_example :
    (steps : List ℕ) × ((run_steps steps
        (run_steps (0 ∷ 0 ∷ 0 ∷ 0 ∷ []) (run_async 5 3 two_workers).1).1).1.remaining
      ≡ 0)
batch_can_finish_example =
    batch_can_finish 5 3 two_workers (0 ∷ 0 ∷ 0 ∷ 0 ∷ []) two_workers-IsReady (omega arith)
      (unfold new_pool set_callback grain_of in omega arith)
