-- ===== src/Tests/Nvidia.antt =====
-- sources/resolver/nvidia at concrete inputs.
use luminousminer.Prelude.{true, false, none, replicate, [], ◌∷◌}
use luminousminer.Prelude.Text.{codes}
use luminousminer.Stratum.JobInfo.{JobInfo, empty_job}
use luminousminer.Resolver.Blake3.{Result}
use luminousminer.Resolver.Nvidia.{Launch, Stream, ResolverNvidia}
use luminousminer.Resolver.Nvidia.Blake3.{Constants}

abbrev no_constants : Constants
no_constants = record { header = []; target = []; to_group = 0; from_group = 0 }

abbrev other_constants : Constants
other_constants = record { header = 5 ∷ []; target = 6 ∷ []; to_group = 1; from_group = 2 }

-- A kernel that finds its first nonce.
abbrev finds_first : Launch Constants → Result → Result
finds_first l result = record { found = true; count = 1; nonces = l.nonce ∷ 0 ∷ 0 ∷ 0 ∷ [] }

abbrev idle : Stream Constants
idle = record {
  result_cache = record { found = false; count = 0; nonces = replicate 4 0 };
  flying = none;
}

abbrev small_resolver : ResolverNvidia Constants
small_resolver = record {
  resolver = record { current_index_stream = 0; job_id = codes "a"; blocks = 8192; threads = 128 };
  result_share = record {
    job_id = [];
    to_group = 0;
    from_group = 0;
    found = false;
    extra_nonce_size = 0;
    count = 0;
    nonces = replicate 4 0;
  };
  constants = no_constants;
  stream0 = idle;
  stream1 = idle;
}

abbrev job_a : JobInfo
job_a = record empty_job { nonce = 1000; job_id_str = codes "a" }

abbrev job_b : JobInfo
job_b = record empty_job { nonce = 5000; job_id_str = codes "b" }
