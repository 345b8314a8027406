-- ===== src/Resolver/Blake3/Found.antt =====
-- sources/resolver/cpu/blake3.cpp over thread_pool.cpp: what a batch finds, whatever the workers do.
use mathlib.Core.List.{Perm, filter_map}
use mathlib.Core.List.Perm
use native.Mathlib.Omega.{arith}
use luminousminer.Prelude.{
  ℕ, zero, suc, ◌+◌, ◌-◌, ◌*◌, ◌^◌, ◌≤◌, ◌<◌, ◌≡◌, refl, sym, ap, subst, ◌∙◌, none, some, List, [],
  ◌∷◌, ◌++◌, if◌then◌else◌, take, length, numbers,
}
use luminousminer.Prelude.Word.{u64}
use luminousminer.Stratum.JobInfo.{Hash, JobInfo}
use luminousminer.Resolver.ThreadPool.{ThreadPool, Slice, grain_of, run_async, run_steps}
use luminousminer.Resolver.ThreadPool.Batch.{IsCover}
use luminousminer.Resolver.ThreadPool.Complete.{IsReady, batch_is_complete}
use luminousminer.Resolver.Blake3.{Batch, max_result, bytes_le, prepare_batch, is_winner, scan}
use luminousminer.Resolver.Blake3.Scan.{IsResult, stored, store_all_lem, hit, scan_lem}

-- The places of the nonces that the calls of the callback scan.
unfoldable pub indices : List Slice → List ℕ
indices [] = []
indices (s ∷ ss) = numbers s.lo (s.hi - s.lo) ++ indices ss

-- The nonces of a job, from its own on, whose hashes do not exceed the target.
unfoldable pub winners : (Hash → ℕ → Hash) → JobInfo → ℕ → List ℕ
winners hash job count =
    filter_map
      (λ i.
        let nonce = u64 (job.nonce + i) in
        if bytes_le (hash job.header_blob nonce) job.target_blob then some nonce else none)
      (numbers 0 count)

numbers-append : (a m n : ℕ) → numbers a m ++ numbers (a + m) n ≡ numbers a (m + n)
unfolding numbers
numbers-append a zero n =
    let start : a + 0 ≡ a = omega arith in
    let size : 0 + n ≡ n = omega arith in ap (λ k. numbers k n) start ∙ sym (ap (numbers a) size)
numbers-append a (suc m) n =
    let start : a + suc m ≡ a + 1 + m = omega arith in
    let size : suc m + n ≡ suc (m + n) = omega arith in
    ap (λ k. a ∷ (numbers (a + 1) m ++ numbers k n)) start
    ∙ ap (λ r. a ∷ r) (numbers-append (a + 1) m n)
    ∙ sym (ap (numbers a) size)

IsCover-le : (a b : ℕ) (ss : List Slice) → IsCover a ss b → a ≤ b
unfolding IsCover
IsCover-le a b [] h = omega (arith, h)
IsCover-le a b (s ∷ ss) (e, l, h) = omega (arith, l, IsCover-le s.hi b ss h)

indices-IsCover : (a b : ℕ) (ss : List Slice) → IsCover a ss b → indices ss ≡ numbers a (b - a)
unfolding IsCover indices numbers
indices-IsCover a b [] h = let none_left : 0 ≡ b - a = omega (arith, h) in ap (numbers a) none_left
indices-IsCover a b (s ∷ ss) (e, l, h) =
    let later = indices-IsCover s.hi b ss h in
    let up = IsCover-le s.hi b ss h in
    let next : s.hi ≡ a + (s.hi - a) = omega (arith, l) in
    let size : s.hi - a + (b - s.hi) ≡ b - a = omega (arith, l, up) in
    ap (λ k. numbers k (s.hi - k) ++ indices ss) e
    ∙ ap (λ r. numbers a (s.hi - a) ++ r) later
    ∙ ap (λ k. numbers a (s.hi - a) ++ numbers k (b - s.hi)) next
    ∙ numbers-append a (s.hi - a) (b - s.hi)
    ∙ ap (numbers a) size

pub prepared-IsResult :
    (b : Batch) (job : JobInfo)
    → length b.result.nonces ≡ max_result
    → IsResult (prepare_batch b job).result
unfolding prepare_batch
prepared-IsResult b job size = record { size = size; few = omega arith; flagged = refl }

prepared_hits :
    (hash : Hash → ℕ → Hash) (b : Batch) (job : JobInfo) (count : ℕ)
    → filter_map (hit hash (prepare_batch b job)) (numbers 0 count) ≡ winners hash job count
unfolding hit is_winner prepare_batch winners
prepared_hits hash b job count = refl

pub prepared_empty : (b : Batch) (job : JobInfo) → stored (prepare_batch b job).result ≡ []
unfolding stored prepare_batch
prepared_empty b job = refl

-- The places of the slices of a batch that is done are those of its nonces, in order.
batch_indices :
    (count grain : ℕ) (p : ThreadPool) (steps : List ℕ)
    → IsReady p
    → 0 < count
    → count + grain_of p.pool_size count grain + p.pool_size * grain_of p.pool_size count grain
      < 2 ^ 64
    → (run_steps steps (run_async count grain p).1).1.remaining ≡ 0
    → indices (run_steps steps (run_async count grain p).1).0 ≡ numbers 0 count
batch_indices count grain p steps ready some_count room done =
    let cover = batch_is_complete count grain p steps ready some_count room done in
    let size : count - 0 ≡ count = omega arith in
    indices-IsCover 0 count _ cover ∙ ap (numbers 0) size

-- For a pool that can start a batch, a positive count that leaves room for one grain and another for each
-- worker below 2 ^ 64, and steps of the workers after which none remains: in whatever order the nonces
-- of the slices are come to, the batch finds exactly the nonces of the job, from its own on, whose
-- hashes do not exceed the target, each as often as it occurs there, and holds the first four of them in the
-- order in which they were found.
pub batch_finds_winners :
    (hash : Hash → ℕ → Hash) (b : Batch) (job : JobInfo) (count grain : ℕ) (p : ThreadPool)
    (steps order : List ℕ)
    → IsReady p
    → 0 < count
    → count + grain_of p.pool_size count grain + p.pool_size * grain_of p.pool_size count grain
      < 2 ^ 64
    → (run_steps steps (run_async count grain p).1).1.remaining ≡ 0
    → length b.result.nonces ≡ max_result
    → Perm order (indices (run_steps steps (run_async count grain p).1).0)
    → (found : List ℕ) × Perm found (winners hash job count)
      × (stored (scan hash order (prepare_batch b job)).result ≡ take max_result found)
batch_finds_winners hash b job count grain p steps order ready some_count room done size any =
    let f = hit hash (prepare_batch b job) in
    let places = batch_indices count grain p steps ready some_count room done in
    let same = subst (Perm order) places any in
    let found = filter_map f order in
    (
      found,
      subst (Perm found) (prepared_hits hash b job count) (Perm.filter_map f same),
      ap (λ s. stored s.result) (scan_lem hash order (prepare_batch b job))
          ∙ (store_all_lem found _ (prepared-IsResult b job size)).1
          ∙ ap (λ s. take max_result (s ++ found)) (prepared_empty b job),
    )
