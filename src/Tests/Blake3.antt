-- ===== src/Tests/Blake3.antt =====
-- sources/resolver/cpu/blake3.cpp at concrete inputs.
use mathlib.Core.List.{Perm, filter_map}
use mathlib.Core.List.Perm
use native.Mathlib.Omega.{arith}
use luminousminer.Prelude.{ℕ, ◌≡◌, refl, false, List, [], ◌∷◌, map, take, replicate}
use luminousminer.Prelude.Text.{codes}
use luminousminer.Stratum.JobInfo.{Hash, JobInfo, empty_job}
use luminousminer.Resolver.ThreadPool.{new_pool, set_callback, grain_of, run_async, run_steps}
use luminousminer.Resolver.Blake3.{
  Batch, ResolverBlake3, max_result, prepare_batch, scan, execute_async, submit,
}
use luminousminer.Resolver.Blake3.Scan.{stored, hit}
use luminousminer.Resolver.Blake3.Found.{indices, winners, batch_finds_winners}
use luminousminer.Resolver.Blake3.Sent.{label}
use luminousminer.Resolver.Blake3.Label.{change_job, collected_under_next_job}
use luminousminer.Tests.Resolver.{two_workers, two_workers-IsReady, schedule, schedule_ends}

-- A hash that is its nonce.
abbrev last_byte : Hash → ℕ → Hash
last_byte header nonce = nonce ∷ []

abbrev easy_job : JobInfo
easy_job = record empty_job { target_blob = 4 ∷ []; nonce = 1; job_id_str = codes "first" }

abbrev next_job : JobInfo
next_job = record empty_job { target_blob = 0 ∷ []; nonce = 9; job_id_str = codes "second" }

abbrev no_batch : Batch
no_batch = record {
  header = [];
  target = [];
  base = 0;
  result = record { found = false; count = 0; nonces = replicate 4 0 };
}

abbrev new_resolver : ResolverBlake3
new_resolver = record {
  resolver = record { current_index_stream = 0; job_id = codes "first"; blocks = 2; threads = 4 };
  result_share = record {
    job_id = [];
    to_group = 0;
    from_group = 0;
    found = false;
    extra_nonce_size = 0;
    count = 0;
    nonces = replicate 4 0;
  };
  batch0 = no_batch;
  batch1 = no_batch;
  in_flight = false;
}

collected_under_next_job_example :
    (submit false (
      change_job last_byte
        (3 ∷ 0 ∷ 5 ∷ 1 ∷ [])
        next_job
        (execute_async last_byte [] easy_job new_resolver))).0
    ≡ map (label next_job) (
        take max_result
          (filter_map (hit last_byte (prepare_batch no_batch easy_job)) (3 ∷ 0 ∷ 5 ∷ 1 ∷ [])))
collected_under_next_job_example =
    collected_under_next_job last_byte false (3 ∷ 0 ∷ 5 ∷ 1 ∷ []) easy_job next_job new_resolver
      refl refl refl refl refl

-- The slices as the schedule takes them, and their nonces in the same order.
batch_finds_winners_example :
    (found : List ℕ) × Perm found (winners last_byte easy_job 10)
    × (stored
          (scan last_byte
            (indices (run_steps schedule (run_async 10 3 two_workers).1).0)
            (prepare_batch no_batch easy_job)).result
        ≡ take max_result found)
batch_finds_winners_example =
    batch_finds_winners last_byte no_batch easy_job 10 3 two_workers schedule
      (indices (run_steps schedule (run_async 10 3 two_workers).1).0) two_workers-IsReady
      (omega arith) (unfold new_pool set_callback grain_of in omega arith) schedule_ends refl
      (Perm.refl _)
