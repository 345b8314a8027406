-- ===== src/Resolver/Nvidia/KHeavyHash.antt =====
-- sources/resolver/nvidia/kheavyhash.cpp.
use luminousminer.Prelude.{
  ℕ, zero, suc, ◌/◌, ◌%◌, Bool, false, not, ◌&&◌, ltb, List, [], ◌∷◌, ◌++◌, take, if◌then◌else◌,
}
use luminousminer.Prelude.Text.{Text}
use luminousminer.Algo.HashUtils.{digit_char}
use luminousminer.Algo.KHeavyHash.Matrix.{Doubles, generate_matrix}
use luminousminer.Stratum.JobInfo.{Hash, JobInfo}
use luminousminer.Resolver.Base.{is_stale}
use luminousminer.Resolver.Blake3.{Result, clear_nonces}
use luminousminer.Resolver.Nvidia.{
  Occupancy, override_occupancy, Launch, Label, ResolverNvidia, copy_constants, harvest_stream,
  execute_async, execute_sync,
}

pub record Constants : Type 0 where
  pub header : Hash
  pub target : Hash
  pub timestamp : ℕ
  pub matrix : List ℕ  -- the rows, one after the other

abbrev pub flatten : List (List ℕ) → List ℕ
flatten [] = []
flatten (row ∷ rows) = row ++ flatten rows

-- `kheavyhashInitMemory` answers.
abbrev pub update_memory : Bool → ResolverNvidia Constants → Bool × ResolverNvidia Constants
update_memory allocated r = (allocated, r)

unfoldable pub update_constants :
    Doubles
    → Occupancy
    → Bool
    → JobInfo
    → ResolverNvidia Constants
    → Bool × ResolverNvidia Constants
update_constants D config copied job r = (
  copied,
  copy_constants
      (record {
        header = job.header_hash;
        target = job.boundary;
        timestamp = job.timestamp;
        matrix = flatten (generate_matrix D (take 32 job.header_hash));
      })
      (record r { resolver = override_occupancy config 256 8192 r.resolver }),
)

unfoldable pub label : Label
label job share = record share { job_id = job.job_id_str; extra_nonce_size = 0 }

module _ (kernel : Launch Constants → Result → Result) where
  unfoldable pub execute_sync_kheavyhash :
      Bool → JobInfo → ResolverNvidia Constants → Bool × ResolverNvidia Constants
  execute_sync_kheavyhash fine job r =
      execute_sync kernel label (harvest_stream label job) fine job r

  unfoldable pub execute_async_kheavyhash :
      Bool → JobInfo → ResolverNvidia Constants → Bool × ResolverNvidia Constants
  execute_async_kheavyhash fine job r = execute_async kernel label fine job r

-- A number below 2^64 through `std::hex`.
unfoldable pub hex_digits : ℕ → ℕ → Text → Text
hex_digits zero v rest = rest
hex_digits (suc n) v rest =
    let more = hex_digits n (v / 16) (digit_char (v % 16) ∷ rest) in
    if ltb v 16 then digit_char v ∷ rest else more

abbrev pub hex_text : ℕ → Text
hex_text v = hex_digits 16 v []

-- The parameters of a share: the id of the job and the nonce.
unfoldable pub params_of : Text → ℕ → List ℕ → List (List Text)
params_of job_id zero nonces = []
params_of job_id (suc n) [] = []
params_of job_id (suc n) (x ∷ nonces) = (job_id ∷ hex_text x ∷ []) ∷ params_of job_id n nonces

-- What was not found keeps its count.
unfoldable pub submit :
    Bool → ResolverNvidia Constants → List (List Text) × ResolverNvidia Constants
submit stale r =
    let share = r.result_share in
    let sends = share.found && not (is_stale stale share.job_id r.resolver) in
    let left =
      if share.found
      then record share {
        nonces = if sends then clear_nonces share.count share.nonces else share.nonces;
        count = 0;
        found = false;
      }
      else share in
    (
      if sends then params_of share.job_id share.count share.nonces else [],
      record r { result_share = left },
    )

unfoldable pub submit_smart_mining :
    Bool → ResolverNvidia Constants → List (List Text) × ResolverNvidia Constants
submit_smart_mining stale r = submit stale r
