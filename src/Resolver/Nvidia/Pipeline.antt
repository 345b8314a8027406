-- ===== src/Resolver/Nvidia/Pipeline.antt =====
-- What sources/resolver/nvidia/blake3.cpp and kheavyhash.cpp take over from their two streams.
use luminousminer.Prelude.{ℕ, ◌≡◌, true, [], ◌∷◌}
use luminousminer.Prelude.Text.{Text}
use luminousminer.Stratum.JobInfo.{JobInfo}
use luminousminer.Resolver.Blake3.{Result}
use luminousminer.Resolver.Nvidia.{
  Launch, Label, ResolverNvidia, current_stream, swap, copy_constants, harvest, execute_async,
}

module _ {C : Type 0} (kernel : Launch C → Result → Result) (label : Label) where
  -- A new job in between: its constants, the occupancy, and its id.
  abbrev pub changed : C → ℕ → ℕ → Text → ResolverNvidia C → ResolverNvidia C
  changed constants blocks threads job_id r = copy_constants constants (record r {
    resolver = record r.resolver { blocks = blocks; threads = threads; job_id = job_id };
  })

  -- The kernel of a call, with its own constants and the new ones.
  abbrev pub launch_of : C → JobInfo → ResolverNvidia C → Launch C
  launch_of copied job r = record {
    constants = copied ∷ r.constants ∷ [];
    nonce = job.nonce;
    blocks = r.resolver.blocks;
    threads = r.resolver.threads;
  }

  abbrev at_index : ℕ → ResolverNvidia C → ResolverNvidia C
  at_index n r = record r { resolver = record r.resolver { current_index_stream = n } }

  abbrev after : JobInfo → ResolverNvidia C → ResolverNvidia C
  after job r = (execute_async kernel label true job r).1

  pub IsPipelined : JobInfo → JobInfo → C → ℕ → ℕ → Text → ResolverNvidia C → Type 0
  IsPipelined job next_job constants blocks threads job_id r =
      let between = changed constants blocks threads job_id (after job r) in
      (after next_job between).result_share
      ≡ (harvest label next_job
          (kernel (launch_of constants job r) (current_stream (swap r)).result_cache)
          between.result_share).1
