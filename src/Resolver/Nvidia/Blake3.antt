-- ===== src/Resolver/Nvidia/Blake3.antt =====
-- sources/resolver/nvidia/blake3.cpp.
use luminousminer.Prelude.{
  ℕ, Bool, true, false, not, ◌&&◌, ltb, Option, none, some, List, [], if◌then◌else◌,
}
use luminousminer.Stratum.JobInfo.{Hash, JobInfo}
use luminousminer.Resolver.Base.{is_stale}
use luminousminer.Resolver.Blake3.{Result, Share, share_of, smart_share_of, shares_of, submitted}
use luminousminer.Resolver.Nvidia.{
  Occupancy, override_occupancy, Launch, Label, ResolverNvidia, copy_constants, harvest,
  execute_async, execute_sync,
}

-- `hostHeaderBlob` and `hostTargetBlob` on the device, and the groups.
pub record Constants : Type 0 where
  pub header : Hash
  pub target : Hash
  pub to_group : ℕ
  pub from_group : ℕ

-- `blake3InitMemory` answers.
unfoldable pub update_memory : Bool → ResolverNvidia Constants → Bool × ResolverNvidia Constants
update_memory allocated r = if allocated then (true, r) else (false, r)

unfoldable pub update_constants :
    Occupancy → Bool → JobInfo → ResolverNvidia Constants → Bool × ResolverNvidia Constants
update_constants config copied job r =
    let constants : Constants = record {
      header = job.header_blob;
      target = job.target_blob;
      to_group = job.to_group;
      from_group = job.from_group;
    } in
    let next =
      copy_constants constants
        (record r { resolver = override_occupancy config 128 8192 r.resolver }) in
    if copied then (true, next) else (false, next)

unfoldable pub label : Label
label job share = record share {
  job_id = job.job_id_str;
  from_group = job.from_group;
  to_group = job.to_group;
  extra_nonce_size = job.extra_nonce_size;
}

-- `executeSync` reads `resultCache[0]`, whatever the current stream is.
unfoldable pub take_first : JobInfo → ResolverNvidia Constants → ResolverNvidia Constants
take_first job r =
    let (left, share) = harvest label job r.stream0.result_cache r.result_share in
    record r { stream0 = record r.stream0 { result_cache = left }; result_share = share }

module _ (kernel : Launch Constants → Result → Result) where
  unfoldable pub execute_sync_blake3 :
      Bool → JobInfo → ResolverNvidia Constants → Bool × ResolverNvidia Constants
  execute_sync_blake3 fine job r = execute_sync kernel label (take_first job) fine job r

  unfoldable pub execute_async_blake3 :
      Bool → JobInfo → ResolverNvidia Constants → Bool × ResolverNvidia Constants
  execute_async_blake3 fine job r = execute_async kernel label fine job r

unfoldable pub submit : Bool → ResolverNvidia Constants → List Share × ResolverNvidia Constants
submit stale r =
    let share = r.result_share in
    let sends = share.found && not (is_stale stale share.job_id r.resolver) in
    (
      if sends then shares_of (share_of share) share.count share.nonces else [],
      record r { result_share = submitted sends share },
    )

-- `substr` throws where it would start behind the 16 digits.
unfoldable pub submit_smart_mining :
    Bool → ResolverNvidia Constants → Option (List Share × ResolverNvidia Constants)
submit_smart_mining stale r =
    let share = r.result_share in
    let sends = share.found && not (is_stale stale share.job_id r.resolver) in
    if sends && ltb 0 share.count && ltb 16 share.extra_nonce_size
    then none
    else some (
      if sends then shares_of (smart_share_of share) share.count share.nonces else [],
      record r { result_share = submitted sends share },
    )
