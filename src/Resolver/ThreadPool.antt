-- ===== src/Resolver/ThreadPool.antt =====
-- sources/resolver/cpu/thread_pool.cpp. The workers run at the same time: their atomic steps, in the
-- order in which they happen, are a list of events. A worker copies the batch and reports its end
-- under the mutex, and takes a slice by one `fetch_add`, so each of these is one step. A call of the
-- callback is the slice it is called with. Affinity and the shutdown by interruption are not modelled.
pub mod Sums
pub mod Batch
pub mod Complete
pub mod Progress
pub mod Again
use luminousminer.Prelude.{
  ℕ, zero, suc, ◌+◌, ◌-◌, ◌*◌, ◌/◌, ◌%◌, ◌^◌, Bool, true, false, not, ◌&&◌, ◌||◌, Option, none,
  some, List, [], ◌∷◌, ◌++◌, ltb, leb, ◌==◌, if◌then◌else◌, get_elem?, set,
}
use luminousminer.Prelude.Word.{u32, u64, sub32}
use luminousminer.Device.AtomicCounter
use luminousminer.Device.AtomicCounter.{AtomicCounter, new}

-- Where a worker is in `workerLoop`: it waits for a new generation, pulls slices of the batch that it
-- copied, or found the batch drained.
pub data Phase : Type 0 where
  waiting : Phase
  pulling : ℕ → ℕ → Phase
  drained : Phase

pub record Worker : Type 0 where
  pub last_generation : ℕ
  pub phase : Phase

-- A call of the callback: [lo, hi) and the index of the worker.
pub record Slice : Type 0 where
  pub lo : ℕ
  pub hi : ℕ
  pub worker : ℕ

pub record ThreadPool : Type 0 where
  pub pool_size : ℕ
  -- Whether a callback is set.
  pub callback : Bool
  pub total : ℕ
  pub slice_grain : ℕ
  pub cursor : AtomicCounter
  pub generation : ℕ
  pub remaining : ℕ
  pub workers : List Worker

abbrev pub replicate_workers : ℕ → List Worker
replicate_workers zero = []
replicate_workers (suc n) = record { last_generation = 0; phase = waiting } ∷ replicate_workers n

-- The constructor: no thread is made for a pool of one.
unfoldable pub new_pool : ℕ → ThreadPool
new_pool worker_count =
    let size = if ltb 0 worker_count then worker_count else 1 in
    record {
      pool_size = size;
      callback = false;
      total = 0;
      slice_grain = 1;
      cursor = new 0;
      generation = 0;
      remaining = 0;
      workers = if ltb 1 size then replicate_workers size else [];
    }

unfoldable pub set_callback : ThreadPool → ThreadPool
set_callback p = record p { callback = true }

abbrev pub min : ℕ → ℕ → ℕ
min a b = if ltb a b then a else b

abbrev pub calls : Bool → Slice → List Slice
calls callback slice = if callback then slice ∷ [] else []

-- `(count + poolSize - 1) / poolSize`, or the grain that was asked for, and never 0.
unfoldable pub grain_of : ℕ → ℕ → ℕ → ℕ
grain_of pool_size count grain =
    let asked =
      if grain == 0 then u64 (u64 (count + pool_size) + 2 ^ 64 - 1) / pool_size else grain in
    if asked == 0 then 1 else asked

unfoldable pub run_async : ℕ → ℕ → ThreadPool → List Slice × ThreadPool
unfolding grain_of AtomicCounter.store
run_async count grain p =
    if leb p.pool_size 1 || count == 0
    then (calls (not (count == 0) && p.callback) (record { lo = 0; hi = count; worker = 0 }), p)
    else (
      [],
      record p {
        total = count;
        slice_grain = grain_of p.pool_size count grain;
        cursor = AtomicCounter.store 0 p.cursor;
        remaining = p.pool_size;
        generation = u64 (p.generation + 1);
      },
    )

-- The condition of `wait`, which returns once it holds.
unfoldable pub is_done : ThreadPool → Bool
is_done p = leb p.pool_size 1 || p.remaining == 0

abbrev pub put : ℕ → Worker → ThreadPool → ThreadPool
put i w p = record p { workers = set p.workers i w }

-- `cvWork.wait`, and the copies that follow under the same lock.
unfoldable pub wake : ℕ → Worker → ThreadPool → List Slice × ThreadPool
wake i w p = if p.generation == w.last_generation then ([], p) else (
  [],
  put i (record { last_generation = p.generation; phase = pulling p.total p.slice_grain }) p,
)

-- One `cursor.add(jobGrain)` of the loop and the call of the callback that it leads to.
unfoldable pub pull : ℕ → Worker → ℕ → ℕ → ThreadPool → List Slice × ThreadPool
unfolding AtomicCounter.add
pull i w job_total job_grain p =
    let lo = p.cursor.current in
    let p1 = record p { cursor = AtomicCounter.add job_grain p.cursor } in
    if ltb lo job_total
    then (
      calls p.callback (record { lo = lo; hi = min (u64 (lo + job_grain)) job_total; worker = i }),
      p1,
    )
    else ([], put i (record w { phase = drained }) p1)

-- `--remaining`, and back to the wait.
unfoldable pub leave : ℕ → Worker → ThreadPool → List Slice × ThreadPool
leave i w p =
    ([], put i (record w { phase = waiting }) (record p { remaining = sub32 p.remaining 1 }))

-- The next step of the worker with the index.
unfoldable pub step : ℕ → ThreadPool → List Slice × ThreadPool
unfolding wake pull leave
step i p = elim (get_elem? p.workers i) [
  | none ↦ ([], p)
  | some w ↦ elim w.phase [
    | waiting ↦ wake i w p
    | pulling job_total job_grain ↦ pull i w job_total job_grain p
    | drained ↦ leave i w p
  ]
]

-- The steps of the workers in the order of their indices in the list, and the calls they made.
unfoldable pub run_steps : List ℕ → ThreadPool → List Slice × ThreadPool
unfolding step
run_steps [] p = ([], p)
run_steps (i ∷ is) p =
    let first = step i p in let rest = run_steps is first.1 in (first.0 ++ rest.0, rest.1)
