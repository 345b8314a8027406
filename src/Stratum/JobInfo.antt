-- ===== src/Stratum/JobInfo.antt =====
-- sources/stratum/job_info.hpp and job_info.cpp. A hash is the list of its bytes; its width is
-- fixed by the C++ type and the same on both sides of a copy. The mutex is not modelled: `copy`
-- runs under it as one step.
use luminousminer.Prelude.{ℕ, ◌≡◌, refl, Bool, false, List, [], replicate}
use luminousminer.Prelude.Int.{ℤ, negsuc}
use luminousminer.Prelude.Text.{Text}

abbrev pub Hash : Type 0
Hash = List ℕ

pub record JobInfo : Type 0 where
  pub epoch : ℤ
  pub job_id : Hash
  pub header_hash : Hash
  pub seed_hash : Hash
  pub boundary : Hash
  pub nonce : ℕ
  pub start_nonce : ℕ
  pub extra_nonce : ℕ
  pub gap_nonce : ℕ
  pub block_number : ℕ
  pub period : ℕ
  pub boundary_u64 : ℕ
  pub target_bits : ℕ
  pub clean_job : Bool
  pub job_id_str : Text
  pub coinb1 : Hash
  pub coinb2 : Hash
  pub merkletree : List Hash
  pub extra_nonce_size : ℕ
  pub extra_nonce2_size : ℕ
  pub header_blob : Hash
  pub target_blob : Hash
  pub from_group : ℕ
  pub to_group : ℕ
  pub timestamp : ℕ

-- The bytes of a value-initialised hash.
abbrev pub zero_hash : ℕ → Hash
zero_hash n = replicate n 0

-- `StratumJobInfo jobInfo{}`.
abbrev pub empty_job : JobInfo
empty_job = record {
  epoch = negsuc 0;
  job_id = zero_hash 32;
  header_hash = zero_hash 32;
  seed_hash = zero_hash 32;
  boundary = zero_hash 32;
  nonce = 0;
  start_nonce = 0;
  extra_nonce = 0;
  gap_nonce = 1;
  block_number = 0;
  period = 0;
  boundary_u64 = 0;
  target_bits = 0;
  clean_job = false;
  job_id_str = [];
  coinb1 = zero_hash 128;
  coinb2 = zero_hash 256;
  merkletree = replicate 12 (zero_hash 32);
  extra_nonce_size = 0;
  extra_nonce2_size = 0;
  header_blob = zero_hash 384;
  target_blob = zero_hash 32;
  from_group = 0;
  to_group = 0;
  timestamp = 0;
}

-- The assignments of `copy`, one for each line of the source.
unfoldable pub copy : JobInfo → JobInfo → JobInfo
copy job other = record job {
  epoch = other.epoch;
  job_id = other.job_id;
  header_hash = other.header_hash;
  coinb1 = other.coinb1;
  coinb2 = other.coinb2;
  seed_hash = other.seed_hash;
  boundary = other.boundary;
  merkletree = other.merkletree;
  nonce = other.nonce;
  start_nonce = other.start_nonce;
  extra_nonce = other.extra_nonce;
  gap_nonce = other.gap_nonce;
  block_number = other.block_number;
  period = other.period;
  boundary_u64 = other.boundary_u64;
  target_bits = other.target_bits;
  clean_job = other.clean_job;
  job_id_str = other.job_id_str;
  extra_nonce_size = other.extra_nonce_size;
  extra_nonce2_size = other.extra_nonce2_size;
  header_blob = other.header_blob;
  target_blob = other.target_blob;
  from_group = other.from_group;
  to_group = other.to_group;
  timestamp = other.timestamp;
}

-- `copy` takes over every field: the job does not keep anything of its own.
pub copy_all : (job other : JobInfo) → copy job other ≡ other
unfolding copy
copy_all job other = refl
