-- ===== src/Resolver/Nvidia.antt =====
-- sources/resolver/nvidia/nvidia.cpp and what blake3.cpp and kheavyhash.cpp beside it share: two streams,
-- each with a result in memory that the host and the device see. A kernel is a parameter: what it makes of
-- the result, from the constants, the first nonce and the number of threads. A stream is not read before it
-- is synchronized, so its kernel is placed there. sources/device/nvidia.cpp creates both streams with
-- cudaStreamNonBlocking, so that a copy of constants does not wait for the kernels in flight: a kernel
-- reads what it finds of the constants of its launch and of those that were copied since.
pub mod Blake3
pub mod KHeavyHash
pub mod Pipeline
use luminousminer.Prelude.{
  ℕ, ◌%◌, Bool, true, false, Option, none, some, leb, ◌==◌, if◌then◌else◌, List, [], ◌∷◌,
}
use luminousminer.Stratum.JobInfo.{JobInfo}
use luminousminer.Resolver.Base.{Resolver, swap_index_stream, set_blocks, set_threads}
use luminousminer.Resolver.Blake3.{Result, ResultShare, max_result, copy_nonces}

-- `config.occupancy`.
pub record Occupancy : Type 0 where
  pub threads : Option ℕ
  pub blocks : Option ℕ

unfoldable pub override_threads : Occupancy → ℕ → Resolver → Resolver
override_threads config default_threads r = elim config.threads [
  | none ↦ set_threads default_threads r
  | some n ↦ if n % 32 == 0 then set_threads n r else set_threads 256 r
]

unfoldable pub override_occupancy : Occupancy → ℕ → ℕ → Resolver → Resolver
override_occupancy config default_threads default_blocks r =
    let r1 = override_threads config default_threads r in
    elim config.blocks [ none ↦ set_blocks default_blocks r1 | some n ↦ set_blocks n r1 ]

-- A kernel on its stream, with the constants of its launch and before them those that were copied since,
-- the newest first.
pub record Launch (C : Type 0) : Type 0 where
  pub constants : List C
  pub nonce : ℕ
  pub blocks : ℕ
  pub threads : ℕ

-- One of `cuStream` with its entry of `resultCache`.
pub record Stream (C : Type 0) : Type 0 where
  pub result_cache : Result
  pub flying : Option (Launch C)

pub record ResolverNvidia (C : Type 0) : Type 0 where
  pub resolver : Resolver
  pub result_share : ResultShare
  pub constants : C
  pub stream0 : Stream C
  pub stream1 : Stream C

-- How a share is labelled with a job.
abbrev pub Label : Type 0
Label = JobInfo → ResultShare → ResultShare

-- The results that are taken over, and those that stay.
unfoldable pub harvest : Label → JobInfo → Result → ResultShare → Result × ResultShare
harvest label job result share =
    let count = if leb result.count max_result then result.count else max_result in
    if result.found
    then (
      record result { found = false; count = 0 },
      label job (record share {
        found = true;
        count = count;
        nonces = copy_nonces count result.nonces share.nonces;
      }),
    )
    else (result, share)

module _ {C : Type 0} where
  abbrev pub current_stream : ResolverNvidia C → Stream C
  current_stream r = if r.resolver.current_index_stream == 0 then r.stream0 else r.stream1

  abbrev pub put_stream : Stream C → ResolverNvidia C → ResolverNvidia C
  put_stream s r =
      if r.resolver.current_index_stream == 0
      then record r { stream0 = s }
      else record r { stream1 = s }

  abbrev pub swap : ResolverNvidia C → ResolverNvidia C
  swap r = record r { resolver = swap_index_stream r.resolver }

  unfoldable pub expose : C → Stream C → Stream C
  expose c s = elim s.flying [
    | none ↦ s
    | some l ↦ record s { flying = some (record l { constants = c ∷ l.constants }) }
  ]

  -- The `cudaMemcpy` of new constants, next to the kernels in flight.
  unfoldable pub copy_constants : C → ResolverNvidia C → ResolverNvidia C
  unfolding expose
  copy_constants c r = record r {
    constants = c;
    stream0 = expose c r.stream0;
    stream1 = expose c r.stream1;
  }

  -- The search function of the resolver.
  unfoldable pub search_on : JobInfo → ResolverNvidia C → ResolverNvidia C
  search_on job r =
      put_stream
        (record (current_stream r) {
          flying = some (record {
            constants = r.constants ∷ [];
            nonce = job.nonce;
            blocks = r.resolver.blocks;
            threads = r.resolver.threads;
          });
        })
        r

  unfoldable pub harvest_stream : Label → JobInfo → ResolverNvidia C → ResolverNvidia C
  harvest_stream label job r =
      let (left, share) = harvest label job (current_stream r).result_cache r.result_share in
      record (put_stream (record (current_stream r) { result_cache = left }) r) {
        result_share = share;
      }

  module _ (kernel : Launch C → Result → Result) where
    unfoldable pub finished : Stream C → Stream C
    finished s = elim s.flying [
      | none ↦ s
      | some l ↦ record { result_cache = kernel l s.result_cache; flying = none }
    ]

    -- `cudaStreamSynchronize`.
    unfoldable pub synchronize : ResolverNvidia C → ResolverNvidia C
    synchronize r = put_stream (finished (current_stream r)) r

    -- What follows the synchronization in `executeAsync`.
    unfoldable pub go_on : Label → JobInfo → ResolverNvidia C → ResolverNvidia C
    go_on label job r = swap (harvest_stream label job (swap (search_on job (swap r))))

    -- `fine` tells whether cudaStreamSynchronize and cudaGetLastError succeed.
    unfoldable pub execute_async :
        Label → Bool → JobInfo → ResolverNvidia C → Bool × ResolverNvidia C
    execute_async label fine job r =
        if fine then (true, go_on label job (synchronize r)) else (false, r)

    -- The stream of the search is synchronized; the index whose result is read is that of the caller.
    unfoldable pub execute_sync :
        Label
        → (ResolverNvidia C → ResolverNvidia C)
        → Bool
        → JobInfo
        → ResolverNvidia C
        → Bool × ResolverNvidia C
    execute_sync label take_results fine job r =
        let searched = search_on job r in
        if fine then (true, take_results (synchronize searched)) else (false, searched)
