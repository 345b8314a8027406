-- ===== src/Tests/Pools.antt =====
-- The pools of sources/device/device_manager.cpp at concrete inputs.
use luminousminer.Prelude.{ℕ, ◌≡◌, refl, List, [], ◌∷◌, none, some}
use luminousminer.Prelude.Text.{codes}
use luminousminer.Algo.AlgoType.{ethash, to_enum}
use luminousminer.Stratum.Session.{ethereum_v1}
use luminousminer.Stratum.NewStratum.{new_stratum}
use luminousminer.Device.Pools.{
  DeviceType, amd, cpu, nvidia, PoolConfig, Settings, lookup, Pools, no_pools, contain_stratum,
  next_count, configure, initialize_stratum, choose_pool, assign,
}

abbrev main_pool : PoolConfig
main_pool = record {
  host = codes "pool";
  stratum_type = ethereum_v1;
  port = 4444;
  algo = codes "ethash";
  worker_name = codes "rig";
  wallet = codes "w";
  password = codes "x";
}

abbrev no_pool : PoolConfig
no_pool = record main_pool { host = []; port = 0; algo = [] }

abbrev settings : Settings
settings = record {
  mining = main_pool;
  amd_setting = no_pool;
  nvidia_setting = no_pool;
  device_settings = (1, record main_pool { algo = codes "kheavyhash" }) ∷ [];
}

abbrev three_devices : List (DeviceType × ℕ)
three_devices = (amd, 0) ∷ (nvidia, 1) ∷ (cpu, 2) ∷ []

abbrev outcome : List ℕ × Pools
outcome = elim (assign settings ethash three_devices no_pools) [
  | none ↦ ([], no_pools)
  | some r ↦ r
]

assign_succeeds : assign settings ethash three_devices no_pools ≡ some outcome
unfolding assign choose_pool initialize_stratum lookup contain_stratum next_count configure
    new_stratum to_enum
assign_succeeds = refl
