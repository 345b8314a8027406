-- ===== src/Stratum/NewStratum.antt =====
-- sources/stratum/stratums.cpp and stratum_type.cpp: the stratum of an algorithm. A failed allocation
-- is not modelled.
use luminousminer.Prelude.{ℕ, false, Option, none, some, []}
use luminousminer.Prelude.Text.{Text, codes}
use luminousminer.Algo.AlgoType.{Algorithm, unknown, etchash}
use luminousminer.Algo.Epoch.{empty_cache}
use luminousminer.Stratum.JobInfo.{empty_job}
use luminousminer.Stratum.Session.{Stratum, StratumType, ethereum_v1, ethereum_v2, ethproxy}

-- `MAX_EPOCH_NUMBER` and `EIP1099_MAX_EPOCH_NUMBER` of algo/ethash/ethash.hpp; only StratumEthash and
-- StratumEtchash have the field.
abbrev pub max_epoch_of : Algorithm → ℕ
max_epoch_of etchash = 30000
max_epoch_of _ = 32639

abbrev pub protocol_of : StratumType → Text
protocol_of ethereum_v1 = codes "EthereumStratum/1.0.0"
protocol_of ethereum_v2 = codes "EthereumStratum/2.0.0"
protocol_of ethproxy = []

-- The fields as the constructors leave them: the base class does not set `algorithm` here. The random
-- numbers are not known here; a run with them puts them in `draws`.
abbrev pub fresh_stratum : StratumType → Algorithm → Stratum
fresh_stratum stratum_type algorithm = record {
  uuid = 0;
  job_info = empty_job;
  algorithm = unknown;
  stratum_type = stratum_type;
  worker_name = [];
  wallet = [];
  password = [];
  protocol = protocol_of stratum_type;
  host = [];
  port = 0;
  authenticated = false;
  dispatches = false;
  reports = false;
  session_id = [];
  extra_nonce2_size = 0;
  max_epoch_number = max_epoch_of algorithm;
  epoch_cache = empty_cache;
  worker_id = [];
  max_errors = 0;
  resume = 0;
  timeout = 0;
  draws = λ n. 0;
}

unfoldable pub new_stratum : StratumType → Algorithm → Option Stratum
new_stratum stratum_type unknown = none
new_stratum stratum_type algorithm = some (fresh_stratum stratum_type algorithm)
