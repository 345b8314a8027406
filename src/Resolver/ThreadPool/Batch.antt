-- ===== src/Resolver/ThreadPool/Batch.antt =====
-- sources/resolver/cpu/thread_pool.cpp: the slices of one batch, for every order of the workers' steps.
use native.Mathlib.Omega.{arith}
use luminousminer.Prelude.{
  ℕ, zero, suc, ◌+◌, ◌*◌, ◌^◌, ◌≤◌, ◌<◌, ◌≡◌, refl, sym, ap, subst, ◌∙◌, true, false, Bool-cases,
  inl, inr, some, List, [], ◌∷◌, ◌++◌, ◌⊎◌, ltb, ltb→lt, ◌==◌, if◌then◌else◌, get_elem?, set,
  length, length-set,
}
use luminousminer.Prelude.Word.{u64, sub32}
use luminousminer.Device.AtomicCounter
use luminousminer.Device.AtomicCounter.{AtomicCounter}
use luminousminer.Resolver.ThreadPool.{
  waiting, pulling, drained, Worker, Slice, ThreadPool, min, wake, pull, leave,
}
use luminousminer.Resolver.ThreadPool.Sums.{sum, sum-set, sum-get, sum-le}

-- Slices that cut [a, b) without a gap and without an overlap, none of them empty.
unfoldable pub IsCover : ℕ → List Slice → ℕ → Type 0
IsCover a [] b = a ≡ b
IsCover a (s ∷ ss) b = (s.lo ≡ a) × (a < s.hi) × IsCover s.hi ss b

IsCover-append :
    (a b c : ℕ) (ss ts : List Slice) → IsCover a ss b → IsCover b ts c → IsCover a (ss ++ ts) c
unfolding IsCover
IsCover-append a b c [] ts h k = subst (λ x. IsCover x ts c) (sym h) k
IsCover-append a b c (s ∷ ss) ts (e, l, h) k = (e, l, IsCover-append s.hi b c ss ts h k)

-- Whether a worker still owes its end to the batch of a generation.
unfoldable pub owes : ℕ → Worker → ℕ
owes g w = elim w.phase [ waiting ↦ if g == w.last_generation then 0 else 1 | _ ↦ 1 ]

-- How far a worker moved the cursor beyond the batch: by one grain, when it found it drained.
unfoldable pub overshoot : ℕ → ℕ → Worker → ℕ
overshoot g grain w = elim w.phase [
  | waiting ↦ if g == w.last_generation then grain else 0
  | pulling t n ↦ 0
  | drained ↦ grain
]

-- A worker that is at work has the numbers of the batch.
unfoldable pub IsWorker : ℕ → ℕ → ℕ → Worker → Type 0
IsWorker g total grain w = elim w.phase [
  | waiting ↦ Unit
  | pulling t n ↦ (w.last_generation ≡ g) × (t ≡ total) × (n ≡ grain)
  | drained ↦ w.last_generation ≡ g
]

unfoldable pub AllWorkers : ℕ → ℕ → ℕ → List Worker → Type 0
unfolding IsWorker
AllWorkers g total grain [] = Unit
AllWorkers g total grain (w ∷ ws) = IsWorker g total grain w × AllWorkers g total grain ws

pub AllWorkers-get :
    (g total grain : ℕ) (ws : List Worker) (i : ℕ) (w : Worker)
    → get_elem? ws i ≡ some w
    → AllWorkers g total grain ws
    → IsWorker g total grain w
unfolding AllWorkers
AllWorkers-get g total grain [] i w h a = ground (arith, h)
AllWorkers-get g total grain (v ∷ ws) zero w h (a, as_) =
    let same : v ≡ w = ground (arith, h) in subst (IsWorker g total grain) same a
AllWorkers-get g total grain (v ∷ ws) (suc i) w h (a, as_) =
    AllWorkers-get g total grain ws i w h as_

AllWorkers-set :
    (g total grain : ℕ) (ws : List Worker) (i : ℕ) (w : Worker)
    → AllWorkers g total grain ws
    → IsWorker g total grain w
    → AllWorkers g total grain (set ws i w)
unfolding AllWorkers
AllWorkers-set g total grain [] i w a h = a
AllWorkers-set g total grain (v ∷ ws) zero w (a, as_) h = (h, as_)
AllWorkers-set g total grain (v ∷ ws) (suc i) w (a, as_) h =
    (a, AllWorkers-set g total grain ws i w as_ h)

-- The batch of a generation while its workers are at it, and the slices that were handed out so far.
pub record IsBatch (g total grain n : ℕ) (slices : List Slice) (p : ThreadPool) : Type 0 where
  pub generation : p.generation ≡ g
  pub batch_total : p.total ≡ total
  pub batch_grain : p.slice_grain ≡ grain
  pub callback : p.callback ≡ true
  pub count : length p.workers ≡ n
  pub workers : AllWorkers g total grain p.workers
  pub remaining : p.remaining ≡ sum (owes g) p.workers
  pub cover : IsCover 0 slices (min p.cursor.current total)
  pub bound : p.cursor.current < total + grain + sum (overshoot g grain) p.workers
  pub over : 0 < sum (overshoot g grain) p.workers → total ≤ p.cursor.current

owes-le : (g : ℕ) (w : Worker) → owes g w ≤ 1
unfolding owes
owes-le g w = ground arith

overshoot-le : (g grain : ℕ) (w : Worker) → overshoot g grain w ≤ grain
unfolding overshoot
overshoot-le g grain w = ground arith

min_below : (a b : ℕ) → ltb a b ≡ true → min a b ≡ a
min_below a b h = rw h refl

min_beyond : (a b : ℕ) → ltb a b ≡ false → min a b ≡ b
min_beyond a b h = rw h refl

min_grows :
    (c total grain : ℕ)
    → ltb c total ≡ true
    → 0 < grain
    → c + grain < 2 ^ 64
    → min c total < min (u64 (c + grain)) total
min_grows c total grain h k fits = ground arith

past : (c total grain : ℕ) → ltb c total ≡ false → c + grain < 2 ^ 64 → total ≤ u64 (c + grain)
past c total grain h fits = ground arith

min_past :
    (c total grain : ℕ)
    → ltb c total ≡ false
    → c + grain < 2 ^ 64
    → min (u64 (c + grain)) total ≡ total
min_past c total grain h fits = ground arith

append_nil : (ss : List Slice) → ss ≡ ss ++ []
append_nil [] = refl
append_nil (s ∷ ss) = ap (λ r. s ∷ r) (append_nil ss)

module _ (g total grain n : ℕ) (some_grain : 0 < grain) (few : n < 2 ^ 32)
    (room : total + grain + n * grain < 2 ^ 64) where
  pub keep_slices :
      (slices : List Slice) (p : ThreadPool)
      → IsBatch g total grain n slices p
      → IsBatch g total grain n (slices ++ []) p
  keep_slices slices p b = subst (λ ss. IsBatch g total grain n ss p) (append_nil slices) b

  -- A worker changes, and with it the cursor and what remains.
  changed-IsBatch :
      (slices : List Slice) (i : ℕ) (old new : Worker) (c : AtomicCounter) (r : ℕ) (p : ThreadPool)
      → get_elem? p.workers i ≡ some old
      → IsBatch g total grain n slices p
      → IsWorker g total grain new
      → r + owes g old ≡ p.remaining + owes g new
      → IsCover 0 slices (min c.current total)
      → c.current + overshoot g grain old ≤ p.cursor.current + overshoot g grain new
      → (total ≤ c.current)
        ⊎ ((overshoot g grain new ≡ overshoot g grain old) × (p.cursor.current ≤ c.current))
      → IsBatch g total grain n slices
          (record p { cursor = c; remaining = r; workers = set p.workers i new })
  changed-IsBatch slices i old new c r p at_i b ok still cover moved over =
      let owed = sum-set (owes g) p.workers i old new at_i in
      let shot = sum-set (overshoot g grain) p.workers i old new at_i in
      record {
        generation = b.generation;
        batch_total = b.batch_total;
        batch_grain = b.batch_grain;
        callback = b.callback;
        count = length-set p.workers i new ∙ b.count;
        workers = AllWorkers-set g total grain p.workers i new b.workers ok;
        remaining = omega (arith, owed, still, b.remaining);
        cover = cover;
        bound = omega (arith, shot, moved, b.bound);
        over = λ more. elim over [
          | inl there ↦ there
          | inr (same, on) ↦
              let t = b.over (omega (arith, shot, same, more)) in omega (arith, t, on)
        ];
      }

  -- A waiting worker's shares, by whether it has seen the generation.
  seen :
      (last : ℕ)
      → (g == last) ≡ true
      → (owes g (record { last_generation = last; phase = waiting }) ≡ 0)
        × (overshoot g grain (record { last_generation = last; phase = waiting }) ≡ grain)
  unfolding owes overshoot
  seen last h = (rw h refl, rw h refl)

  unseen :
      (last : ℕ)
      → (g == last) ≡ false
      → (owes g (record { last_generation = last; phase = waiting }) ≡ 1)
        × (overshoot g grain (record { last_generation = last; phase = waiting }) ≡ 0)
  unfolding owes overshoot
  unseen last h = (rw h refl, rw h refl)

  pub wake-IsBatch :
      (slices : List Slice) (i last : ℕ) (p : ThreadPool)
      → get_elem? p.workers i ≡ some (record { last_generation = last; phase = waiting })
      → IsBatch g total grain n slices p
      → IsBatch g total grain n
          (slices ++ (wake i (record { last_generation = last; phase = waiting }) p).0)
          (wake i (record { last_generation = last; phase = waiting }) p).1
  unfolding wake owes overshoot IsWorker
  wake-IsBatch slices i last p at_i b = elim (Bool-cases (p.generation == last)) [
    | inl hit ↦ rw hit (keep_slices slices p b)
    | inr miss ↦
        let (owed, shot) = unseen last (ap (λ x. x == last) (sym b.generation) ∙ miss) in
        rw miss (
          keep_slices slices _ (
            changed-IsBatch slices i _
              (record { last_generation = p.generation; phase = pulling p.total p.slice_grain })
              p.cursor p.remaining p at_i b (b.generation, b.batch_total, b.batch_grain)
              (omega (arith, owed)) b.cover (omega (arith, shot)) (inr (sym shot, omega arith))))
  ]

  -- A pulling worker has not moved the cursor beyond the batch, so another grain still fits.
  pub pull_room :
      (i last : ℕ) (p : ThreadPool) (slices : List Slice)
      → get_elem? p.workers i
        ≡ some (record { last_generation = last; phase = pulling total grain })
      → IsBatch g total grain n slices p
      → p.cursor.current + grain < 2 ^ 64
  unfolding overshoot
  pull_room i last p slices at_i b =
      let drained_worker : Worker = record { last_generation = last; phase = drained } in
      let shot = sum-set (overshoot g grain) p.workers i _ drained_worker at_i in
      let at_most =
        sum-le (overshoot g grain) grain (set p.workers i drained_worker) (overshoot-le g grain) in
      let counted = ap (λ x. x * grain) (length-set p.workers i drained_worker ∙ b.count) in
      omega (arith, shot, at_most, counted, b.bound, room)

  pub pull-IsBatch :
      (slices : List Slice) (i last : ℕ) (p : ThreadPool)
      → get_elem? p.workers i
        ≡ some (record { last_generation = last; phase = pulling total grain })
      → last ≡ g
      → IsBatch g total grain n slices p
      → IsBatch g total grain n
          (slices
            ++ (pull i
                (record { last_generation = last; phase = pulling total grain })
                total
                grain
                p).0)
          (pull i (record { last_generation = last; phase = pulling total grain }) total grain p).1
  unfolding pull AtomicCounter.add owes overshoot IsWorker IsCover
  pull-IsBatch slices i last p at_i same b =
      let fits = pull_room i last p slices at_i b in
      let next = u64 (p.cursor.current + grain) in
      elim (Bool-cases (ltb p.cursor.current total)) [
        | inl hit ↦
            let slice : Slice = record { lo = p.cursor.current; hi = min next total; worker = i } in
            rw (hit, b.callback)
              (record {
                generation = b.generation;
                batch_total = b.batch_total;
                batch_grain = b.batch_grain;
                callback = refl;
                count = b.count;
                workers = b.workers;
                remaining = b.remaining;
                cover =
                    IsCover-append 0 (min p.cursor.current total) (min next total) slices
                      (slice ∷ []) b.cover
                      (sym (min_below _ _ hit), min_grows _ _ _ hit some_grain fits, refl);
                bound = omega (arith, ltb→lt _ _ hit, fits);
                over = λ more. let t = b.over more in omega (arith, t, fits);
              })
        | inr miss ↦ rw miss (
            keep_slices slices _ (
              changed-IsBatch slices i _ (record { last_generation = last; phase = drained })
                (AtomicCounter.add grain p.cursor) p.remaining p at_i b same refl
                (subst (IsCover 0 slices) (min_beyond _ _ miss ∙ sym (min_past _ _ _ miss fits))
                  b.cover)
                (omega (arith, fits)) (inl (past _ _ _ miss fits))))
      ]

  pub leave-IsBatch :
      (slices : List Slice) (i last : ℕ) (p : ThreadPool)
      → get_elem? p.workers i ≡ some (record { last_generation = last; phase = drained })
      → last ≡ g
      → IsBatch g total grain n slices p
      → IsBatch g total grain n
          (slices ++ (leave i (record { last_generation = last; phase = drained }) p).0)
          (leave i (record { last_generation = last; phase = drained }) p).1
  unfolding leave owes overshoot IsWorker
  leave-IsBatch slices i last p at_i same b =
      let (owed, shot) = seen last (ground (arith, same)) in
      let some_owed = sum-get (owes g) p.workers i _ at_i in
      let at_most = sum-le (owes g) 1 p.workers (owes-le g) in
      keep_slices slices _ (
        changed-IsBatch slices i _ (record { last_generation = last; phase = waiting }) p.cursor
          (sub32 p.remaining 1) p at_i b tt
          (omega (arith, owed, some_owed, at_most, b.remaining, b.count, few)) b.cover
          (omega (arith, shot)) (inr (shot, omega arith)))
