-- ===== src/Device/Worker/Scan.antt =====
-- sources/device/device.cpp: the nonces that a device works through between two jobs.
use native.Mathlib.Omega.{arith}
use luminousminer.Prelude.{
  ℕ, zero, suc, ◌+◌, ◌*◌, ◌^◌, ◌<◌, ◌≡◌, refl, ap, ◌∙◌, true, Option, some, List, [], ◌∷◌,
  get_elem?, length,
}
use luminousminer.Prelude.Word.{u64}
use luminousminer.Stratum.JobInfo.{JobInfo}
use luminousminer.Device.AtomicCounter
use luminousminer.Device.Statistical
use luminousminer.Device.Statistical.{Doubles, Statistical}
use luminousminer.Device.Worker.{Resolver, Occupancy, Device, take_over, update_job, execute, pass}

module _ (D : Doubles) (config : Occupancy) where
  -- Passes without a new job between them, at the times of the list, and what they launch.
  unfoldable pub scan : Resolver → List ℕ → Device D → List (Option JobInfo) × Device D
  scan r [] d = ([], d)
  scan r (now ∷ times) d =
      let first = pass D config r now d in
      let rest = scan r times first.1 in (first.0 ∷ rest.0, rest.1)

  pub length-scan :
      (r : Resolver) (times : List ℕ) (d : Device D) → length (scan r times d).0 ≡ length times
  unfolding scan
  length-scan r [] d = refl
  length-scan r (now ∷ times) d = ap suc (length-scan r times (pass D config r now d).1)

  advanced : Device D → Device D
  unfolding Statistical.increase_kernel_executed
  advanced d =
      let job = d.current_job in
      record d {
        mining_stats = Statistical.increase_kernel_executed D d.mining_stats;
        current_job = record job { nonce = u64 (job.nonce + d.mining_stats.batch_nonce) };
      }

  pass-advanced :
      (r : Resolver) (now : ℕ) (d : Device D)
      → d.alive ≡ true
      → AtomicCounter.is_equal d.job ≡ true
      → r.execute d.current_job ≡ true
      → pass D config r now d ≡ (some d.current_job, advanced d)
  unfolding pass update_job take_over execute advanced
  pass-advanced r now d live equal runs = rw (live, equal, runs) refl

  next_nonce :
      (nonce batch i : ℕ) → u64 (u64 (nonce + batch) + i * batch) ≡ u64 (nonce + (suc i) * batch)
  next_nonce nonce batch i = grind arith

  first_nonce : (nonce batch : ℕ) → nonce < 2 ^ 64 → nonce ≡ u64 (nonce + 0 * batch)
  first_nonce nonce batch small = grind arith

  wraps : (n : ℕ) → u64 n < 2 ^ 64
  wraps n = omega arith

  -- A device that lives, took its job over and whose kernel runs launches that job in every pass:
  -- the i-th time at the job's nonce, which fits 64 bits, plus i batches, modulo 2 ^ 64.
  pub scan_launches :
      (r : Resolver) (times : List ℕ) (d : Device D) (i : ℕ)
      → d.alive ≡ true
      → AtomicCounter.is_equal d.job ≡ true
      → ((job : JobInfo) → r.execute job ≡ true)
      → d.current_job.nonce < 2 ^ 64
      → i < length times
      → get_elem? (scan r times d).0 i
        ≡ some (
            some (record d.current_job {
              nonce = u64 (d.current_job.nonce + i * d.mining_stats.batch_nonce);
            }))
  unfolding scan advanced
  scan_launches r [] d i live equal runs small bound = elim bound [ ]
  scan_launches r (now ∷ times) d zero live equal runs small bound =
      rw (pass-advanced r now d live equal (runs d.current_job)) (
        ap (λ n. some (some (record d.current_job { nonce = n })))
          (first_nonce d.current_job.nonce d.mining_stats.batch_nonce small))
  scan_launches r (now ∷ times) d (suc i) live equal runs small bound =
      rw (pass-advanced r now d live equal (runs d.current_job)) (
        scan_launches r times (advanced d) i live equal runs
          (wraps (d.current_job.nonce + d.mining_stats.batch_nonce)) (omega arith)
        ∙ ap (λ n. some (some (record d.current_job { nonce = n })))
            (next_nonce d.current_job.nonce d.mining_stats.batch_nonce i))
