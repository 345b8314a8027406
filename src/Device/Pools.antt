-- ===== src/Device/Pools.antt =====
-- sources/device/device_manager.cpp: which pool a device works for (`initialize`,
-- `initializeStratum`, `getOrCreateStratum`). The build has every vendor enabled. A stratum is its
-- state at this point, found under the number of its device; a failed allocation is not modelled.
pub mod Numbers
use luminousminer.Prelude.{
  ℕ, ◌+◌, ◌%◌, ◌^◌, ◌≤◌, Bool, true, false, not, ◌&&◌, ◌||◌, Option, none, some, List, [], ◌∷◌, ltb,
  leb, ◌==◌, if◌then◌else◌, length,
}
use luminousminer.Prelude.Text.{Text, is_empty}
use luminousminer.Prelude.Word.{u32}
use luminousminer.Algo.AlgoType.{Algorithm, to_enum}
use luminousminer.Stratum.Session.{Stratum, StratumType}
use luminousminer.Stratum.NewStratum.{new_stratum}

pub data DeviceType : Type 0 where
  nvidia amd cpu mocker unknown_device : DeviceType

-- The fields of `Config::PoolConfig` that the manager reads.
pub record PoolConfig : Type 0 where
  pub host : Text
  pub stratum_type : StratumType
  pub port : ℕ
  pub algo : Text
  pub worker_name : Text
  pub wallet : Text
  pub password : Text

pub record Settings : Type 0 where
  pub mining : PoolConfig
  pub amd_setting : PoolConfig
  pub nvidia_setting : PoolConfig
  pub device_settings : List (ℕ × PoolConfig)

abbrev pub device_max_id : ℕ
device_max_id = 1000000

-- `std::map::find`.
unfoldable pub lookup : {A : Type 0} → ℕ → List (ℕ × A) → Option A
lookup key [] = none
lookup key ((k, a) ∷ rest) = let found = lookup key rest in if k == key then some a else found

abbrev pub get_config_device : Settings → ℕ → Option PoolConfig
get_config_device config id = lookup id config.device_settings

pub record Pools : Type 0 where
  pub stratum_count : ℕ
  pub stratums : List (ℕ × Stratum)

abbrev pub no_pools : Pools
no_pools = record { stratum_count = 0; stratums = [] }

unfoldable pub contain_stratum : ℕ → Pools → Bool
unfolding lookup
contain_stratum id pools = elim (lookup id pools.stratums) [ none ↦ false | some s ↦ true ]

-- The counter starts over at 100, the number of the jobs that the manager keeps.
unfoldable pub next_count : ℕ → ℕ
next_count count = let next = u32 (count + 1) in if leb 100 next then 0 else next

-- The changes of `initializeStratum` to the stratum that `getOrCreateStratum` stores.
unfoldable pub configure : PoolConfig → Algorithm → Stratum → Stratum
configure pool algorithm s = record s {
  algorithm = algorithm;
  host = pool.host;
  port = pool.port;
  worker_name = pool.worker_name;
  wallet = pool.wallet;
  password = pool.password;
  dispatches = true;
  reports = true;
}

abbrev pub pool_of : Settings → ℕ → PoolConfig
pool_of config id =
    if id == device_max_id
    then config.mining
    else elim (get_config_device config id) [ none ↦ config.mining | some pool ↦ pool ]

-- `none` where `initializeStratum` returns false.
unfoldable pub initialize_stratum : Settings → ℕ → Algorithm → Pools → Option Pools
unfolding contain_stratum new_stratum next_count configure
initialize_stratum config id algorithm pools =
    if contain_stratum id pools
    then some pools
    else elim (new_stratum config.mining.stratum_type algorithm) [
      | none ↦ none
      | some s ↦
          let numbered = record s { uuid = pools.stratum_count } in
          some (record {
            stratum_count = next_count pools.stratum_count;
            stratums = (id, configure (pool_of config id) algorithm numbered) ∷ pools.stratums;
          })
    ]

-- The settings of a vendor count where they name a host, a port and an algorithm.
abbrev pub is_set : PoolConfig → Bool
is_set pool = not (is_empty pool.host) && ltb 0 pool.port && not (is_empty pool.algo)

-- The number under which the stratum of a device is kept, and its algorithm.
unfoldable pub choose_pool : Settings → Algorithm → DeviceType → ℕ → ℕ × Algorithm
choose_pool config algorithm device_type id = elim (get_config_device config id) [
  | some settings ↦ (id, to_enum settings.algo)
  | none ↦ elim device_type [
    | amd ↦
        if is_set config.amd_setting
        then (id, to_enum config.amd_setting.algo)
        else (device_max_id, algorithm)
    | nvidia ↦
        if is_set config.nvidia_setting
        then (id, to_enum config.nvidia_setting.algo)
        else (device_max_id, algorithm)
    | _ ↦ (device_max_id, algorithm)
  ]
]

-- The loop of `initialize` over the devices: the `uuid` of the stratum of each.
unfoldable pub assign :
    Settings → Algorithm → List (DeviceType × ℕ) → Pools → Option (List ℕ × Pools)
unfolding choose_pool initialize_stratum lookup
assign config algorithm [] pools = some ([], pools)
assign config algorithm ((device_type, id) ∷ devices) pools =
    let choice = choose_pool config algorithm device_type id in
    elim (initialize_stratum config choice.0 choice.1 pools) [
      | none ↦ none
      | some next ↦ elim (lookup choice.0 next.stratums) [
        | none ↦ none
        | some s ↦ elim (assign config algorithm devices next) [
          | none ↦ none
          | some (uuids, last) ↦ some (s.uuid ∷ uuids, last)
        ]
      ]
    ]
