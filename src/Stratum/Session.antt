-- ===== src/Stratum/Session.antt =====
-- The state of a `Stratum` (sources/stratum/stratum.hpp), what a handler does to the outside, and
-- the sequencing of its statements. An exception leaves the state as it is at the throw: `onReceive`
-- catches it, and nothing is rolled back.
pub mod Keeps
use luminousminer.Prelude.{ℕ, ◌≡◌, refl, Bool, true, false, List, [], ◌∷◌, ◌++◌, Option, none, some}
use luminousminer.Prelude.Text.{Text}
use luminousminer.Algo.AlgoType.{Algorithm}
use luminousminer.Algo.Epoch.{EpochCache}
use luminousminer.Stratum.JobInfo.{JobInfo}

pub data StratumType : Type 0 where
  ethereum_v1 ethereum_v2 ethproxy : StratumType

pub record Stratum : Type 0 where
  pub uuid : ℕ
  pub job_info : JobInfo
  pub algorithm : Algorithm
  pub stratum_type : StratumType
  pub worker_name : Text
  pub wallet : Text
  pub password : Text
  pub protocol : Text
  pub host : Text
  pub port : ℕ
  pub authenticated : Bool
  -- Whether the callbacks `dispatchJob` and `shareStatus` are set.
  pub dispatches : Bool
  pub reports : Bool
  -- StratumSha256 and StratumEthash, with the cache of `findEpoch`.
  pub session_id : Text
  pub extra_nonce2_size : ℕ
  pub max_epoch_number : ℕ
  pub epoch_cache : EpochCache
  -- EthereumStratum/2.0.0.
  pub worker_id : Text
  pub max_errors : ℕ
  pub resume : ℕ
  pub timeout : ℕ
  -- What the random numbers of `StratumProgPOW` will be, the next one at 0.
  pub draws : ℕ → ℕ

-- A JSON value that the program builds itself.
pub data Param (V : Type 0) : Type 0 where
  text : Text → Param V
  number : ℕ → Param V
  value : V → Param V
  named_text : Text → Text → Param V
  named_number : Text → ℕ → Param V
  pool : Text → Text → ℕ → Text → Param V

pub record Request (V : Type 0) : Type 0 where
  pub id : ℕ
  pub method : Text
  pub worker : Option Text
  pub params : List (Param V)

pub data Effect (V : Type 0) : Type 0 where
  sent : Request V → Effect V
  dispatched : ℕ → JobInfo → Effect V
  share_status : Bool → ℕ → ℕ → Effect V
  -- The thread of `doLoopTimeout` starts, with the timeout.
  loop_timeout : ℕ → Effect V

-- The effects of a handler, oldest first.
pub record World (V : Type 0) : Type 0 where
  pub stratum : Stratum
  pub effects : List (Effect V)

-- `none` is an exception.
abbrev pub M : Type 0 → Type 0 → Type 0
M V A = World V → Option A × World V

module _ {V : Type 0} where
  infixl 5 ◌>>=◌ ◌>>◌
  abbrev pub continue_with : {A B : Type 0} → Option A × World V → (A → M V B) → Option B × World V
  continue_with (none, w) f = (none, w)
  continue_with (some a, w) f = f a w

  abbrev pub ◌>>=◌ : {A B : Type 0} → M V A → (A → M V B) → M V B
  ◌>>=◌ m f w = continue_with (m w) f

  abbrev pub ◌>>◌ : {B : Type 0} → M V (Unit {0}) → M V B → M V B
  m >> k = m >>= λ _. k

  abbrev pub done : M V (Unit {0})
  done w = (some tt, w)

  -- A match on an optional value.
  abbrev pub cases : {A B : Type 0} → Option A → M V B → (A → M V B) → M V B
  cases none absent present = absent
  cases (some a) absent present = present a

  -- An accessor that may throw.
  abbrev pub get : {A : Type 0} → Option A → M V A
  get o w = (o, w)

  abbrev pub session : M V Stratum
  session w = (some w.stratum, w)

  abbrev pub modify : (Stratum → Stratum) → M V (Unit {0})
  modify f w = (some tt, record w { stratum = f w.stratum })

  abbrev pub modify_job : (JobInfo → JobInfo) → M V (Unit {0})
  modify_job f w =
      (some tt, record w { stratum = record w.stratum { job_info = f w.stratum.job_info } })

  abbrev pub emit : Effect V → M V (Unit {0})
  emit e w = (some tt, record w { effects = w.effects ++ e ∷ [] })
