-- ===== src/Resolver/ThreadPool/Progress.antt =====
-- sources/resolver/cpu/thread_pool.cpp: a batch cannot get stuck, and it ends.
use native.Mathlib.Omega.{arith}
use luminousminer.Prelude.{
  ℕ, zero, suc, ◌+◌, ◌-◌, ◌*◌, ◌^◌, ◌≤◌, ◌<◌, ◌≡◌, ap, ◌∙◌, true, false, Bool-cases, inl, inr,
  dec_lt, some, List, [], ◌∷◌, ltb, ltb→lt, ◌==◌, if◌then◌else◌, get_elem?, set,
}
use luminousminer.Prelude.Word.{u64}
use luminousminer.Device.AtomicCounter
use luminousminer.Device.AtomicCounter.{AtomicCounter}
use luminousminer.Resolver.ThreadPool.{
  Phase, waiting, pulling, drained, Worker, Slice, ThreadPool, grain_of, run_async, wake, pull,
  leave, step, run_steps,
}
use luminousminer.Resolver.ThreadPool.Sums.{sum, sum-set, sum-find}
use luminousminer.Resolver.ThreadPool.Batch.{IsBatch, IsWorker, AllWorkers-get, owes, pull_room}
use luminousminer.Resolver.ThreadPool.Complete.{
  IsReady, step-IsBatch, run_steps-IsBatch, run_async-IsBatch, grain_of-positive,
}

-- How many kinds of steps a worker has before it, of the batch of a generation.
stage : ℕ → Worker → ℕ
stage g w = elim w.phase [
  | waiting ↦ if g == w.last_generation then 0 else 3
  | pulling t n ↦ 2
  | drained ↦ 1
]

-- What is left of the batch, and the stages of the workers.
pub left : ℕ → ℕ → ThreadPool → ℕ
unfolding stage
left g total p = (total - p.cursor.current) + sum (stage g) p.workers

module _ (g total grain n : ℕ) (some_grain : 0 < grain) (few : n < 2 ^ 32)
    (room : total + grain + n * grain < 2 ^ 64) where
  -- A worker moves on a stage, and the cursor does not go back.
  moved_on :
      (i c : ℕ) (old new : Worker) (p : ThreadPool)
      → get_elem? p.workers i ≡ some old
      → stage g new < stage g old
      → p.cursor.current ≤ c
      → (total - c) + sum (stage g) (set p.workers i new) < left g total p
  unfolding left
  moved_on i c old new p at_i less on =
      let e = sum-set (stage g) p.workers i old new at_i in omega (arith, e, less, on)

  wake-left :
      (i last : ℕ) (p : ThreadPool)
      → get_elem? p.workers i ≡ some (record { last_generation = last; phase = waiting })
      → p.generation ≡ g
      → (g == last) ≡ false
      → left g total (wake i (record { last_generation = last; phase = waiting }) p).1
        < left g total p
  unfolding wake left stage
  wake-left i last p at_i same miss =
      let new : (p.generation == last) ≡ false = ap (λ x. x == last) same ∙ miss in
      rw new (
        moved_on i p.cursor.current _
          (record { last_generation = p.generation; phase = pulling p.total p.slice_grain }) p at_i
          (rw miss (omega arith)) (omega arith))

  pull-left :
      (slices : List Slice) (i last : ℕ) (p : ThreadPool)
      → get_elem? p.workers i
        ≡ some (record { last_generation = last; phase = pulling total grain })
      → IsBatch g total grain n slices p
      → left g total
          (pull i (record { last_generation = last; phase = pulling total grain }) total grain p).1
        < left g total p
  unfolding pull left stage AtomicCounter.add
  pull-left slices i last p at_i b =
      let fits = pull_room g total grain n some_grain few room i last p slices at_i b in
      elim (Bool-cases (ltb p.cursor.current total)) [
        | inl hit ↦ let below = ltb→lt _ _ hit in rw hit (omega (arith, below, fits, some_grain))
        | inr miss ↦ rw miss (
            moved_on i (u64 (p.cursor.current + grain)) _
              (record { last_generation = last; phase = drained }) p at_i (omega arith)
              (omega (arith, fits)))
      ]

  leave-left :
      (i last : ℕ) (p : ThreadPool)
      → get_elem? p.workers i ≡ some (record { last_generation = last; phase = drained })
      → last ≡ g
      → left g total (leave i (record { last_generation = last; phase = drained }) p).1
        < left g total p
  unfolding leave left stage
  leave-left i last p at_i same =
      let hit : (g == last) ≡ true = ground (arith, same) in
      moved_on i p.cursor.current _ (record { last_generation = last; phase = waiting }) p at_i
        (rw hit (omega arith)) (omega arith)

  -- A waiting worker that owes its end has not seen the generation.
  owes-unseen :
      (last : ℕ)
      → 0 < owes g (record { last_generation = last; phase = waiting })
      → (g == last) ≡ false
  unfolding owes
  owes-unseen last more = ground arith

  step-left :
      (slices : List Slice) (i last : ℕ) (phase : Phase) (p : ThreadPool)
      → get_elem? p.workers i ≡ some (record { last_generation = last; phase = phase })
      → IsBatch g total grain n slices p
      → 0 < owes g (record { last_generation = last; phase = phase })
      → left g total (step i p).1 < left g total p
  unfolding step IsWorker
  step-left slices i last waiting p at_i b more =
      rw (at_i, step) (wake-left i last p at_i b.generation (owes-unseen last more))
  step-left slices i last (pulling t m) p at_i b more =
      let (same, same_total, same_grain) =
        AllWorkers-get g total grain p.workers i _ at_i b.workers in
      let found : get_elem? p.workers i
          ≡ some (record { last_generation = last; phase = pulling total grain }) =
        rw (same_total, same_grain) at (at_i) in
      rw (found, step) (pull-left slices i last p found b)
  step-left slices i last drained p at_i b more =
      let ok = AllWorkers-get g total grain p.workers i _ at_i b.workers in
      rw (at_i, step) (leave-left i last p at_i ok)

  finish :
      (fuel : ℕ) (slices : List Slice) (p : ThreadPool)
      → IsBatch g total grain n slices p
      → left g total p ≤ fuel
      → (steps : List ℕ) × ((run_steps steps p).1.remaining ≡ 0)
  unfolding run_steps
  finish zero slices p b enough = elim (dec_lt 0 (sum (owes g) p.workers)) [
    | no none_owes ↦ ([], omega (arith, b.remaining))
    | yes more ↦
        let (i, w, at_i, owing) = sum-find (owes g) p.workers more in
        let less = step-left slices i w.last_generation w.phase p at_i b owing in
        let never : 1 ≤ 0 = omega (arith, less, enough) in elim never [ ]
  ]
  finish (suc fuel) slices p b enough = elim (dec_lt 0 (sum (owes g) p.workers)) [
    | no none_owes ↦ ([], omega (arith, b.remaining))
    | yes more ↦
        let (i, w, at_i, owing) = sum-find (owes g) p.workers more in
        let less = step-left slices i w.last_generation w.phase p at_i b owing in
        let next = step-IsBatch g total grain n some_grain few room slices i p b in
        let (steps, done) = finish fuel _ (step i p).1 next (omega (arith, less, enough)) in
        (i ∷ steps, done)
  ]

-- For a pool that can start a batch, a positive count, and a count that leaves room for one grain
-- and another for each worker below 2 ^ 64: whatever steps the workers took so far, there are steps
-- after which no worker remains, so that the batch is never stuck and `wait` can return.
pub batch_can_finish :
    (count grain : ℕ) (p : ThreadPool) (taken : List ℕ)
    → IsReady p
    → 0 < count
    → count + grain_of p.pool_size count grain + p.pool_size * grain_of p.pool_size count grain
      < 2 ^ 64
    → (steps : List ℕ) × ((run_steps steps
          (run_steps taken (run_async count grain p).1).1).1.remaining
        ≡ 0)
batch_can_finish count grain p taken ready some_count room =
    let n = grain_of p.pool_size count grain in
    let g = u64 (p.generation + 1) in
    let positive = grain_of-positive p.pool_size count grain in
    let b =
      run_steps-IsBatch g count n p.pool_size positive ready.few room taken []
        (run_async count grain p).1 (run_async-IsBatch count grain p ready some_count) in
    finish g count n p.pool_size positive ready.few room
      (left g count (run_steps taken (run_async count grain p).1).1) _
      (run_steps taken (run_async count grain p).1).1 b (omega arith)
