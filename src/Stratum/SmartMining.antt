-- ===== src/Stratum/SmartMining.antt =====
-- sources/stratum/smart_mining.cpp: a client that a pool of pools tells which algorithm to mine. It makes
-- the stratum of that algorithm and passes messages on to it. A handler returns `none` for an exception,
-- which `onReceive` catches, with the state as it is at the throw.
pub mod Messages
pub mod Handed
pub mod Trace
use luminousminer.Prelude.{
  ℕ, Bool, true, false, List, [], ◌∷◌, map, Option, none, some, if◌then◌else◌,
}
use luminousminer.Prelude.Text.{Text, codes}
use luminousminer.Algo.AlgoType.{Algorithm}
use luminousminer.Stratum.JobInfo.{JobInfo}
use luminousminer.Stratum.Session.{Stratum, StratumType, text, pool, Request, Effect, World}
use luminousminer.Stratum.NewStratum.{new_stratum}

-- What the client does to the outside; `from_pool` is an effect of the stratum it holds.
pub data Outcome (V : Type 0) : Type 0 where
  sets_algorithm : Algorithm → Outcome V
  hands_out : JobInfo → Outcome V
  reports : Bool → ℕ → ℕ → Outcome V
  sends : Request V → Outcome V
  from_pool : Effect V → Outcome V

-- `stratumPool`: the class of the algorithm that it was made for, and its fields.
pub record PoolStratum : Type 0 where
  pub class : Algorithm
  pub session : Stratum

-- A coin of `smartMining.coinPoolConfig`.
pub record CoinPool : Type 0 where
  pub coin : Text
  pub host : Text
  pub port : ℕ
  pub wallet : Text

pub record SmartMining (V : Type 0) : Type 0 where
  pub worker_name : Text
  pub password : Text
  pub stratum_pool : Option PoolStratum
  pub current_algorithm : Algorithm
  -- Whether the callbacks are set.
  pub has_set_algorithm : Bool
  pub has_update_job : Bool
  pub has_share_status : Bool
  pub outcomes : List (Outcome V)  -- the newest first

abbrev pub id_mining_subscribe : ℕ
id_mining_subscribe = 1

abbrev pub id_smart_mining_set_profile : ℕ
id_smart_mining_set_profile = 2

-- What a handler returns, `none` for an exception, and the client after it.
abbrev pub Answered : Type 0 → Type 0
Answered V = Option Bool × SmartMining V

module _ {V : Type 0} where
  abbrev pub add : Outcome V → SmartMining V → SmartMining V
  add o s = record s { outcomes = o ∷ s.outcomes }

  unfoldable pub subscribe : List CoinPool → SmartMining V → SmartMining V
  subscribe coins s =
      add
        (sends (record {
          id = id_mining_subscribe;
          method = codes "mining.subscribe";
          worker = none;
          params =
              text s.worker_name
              ∷ text s.password
              ∷ map (λ c. pool c.coin c.host c.port c.wallet) coins;
        }))
        s

  unfoldable pub set_profile : SmartMining V → SmartMining V
  set_profile s =
      add
        (sends (record {
          id = id_smart_mining_set_profile;
          method = codes "smart_mining.set_profile";
          worker = none;
          params = text (codes "usd_sec") ∷ [];
        }))
        s

  unfoldable pub on_connect : List CoinPool → SmartMining V → SmartMining V
  on_connect coins s = set_profile (subscribe coins s)

  -- The effects of the pool's stratum, the newest first.
  abbrev pub pass_on : List (Effect V) → List (Outcome V) → List (Outcome V)
  pass_on [] os = os
  pass_on (e ∷ es) os = pass_on es (from_pool e ∷ os)

  abbrev pub settle : PoolStratum → World V → SmartMining V → SmartMining V
  settle p w s = record s {
    stratum_pool = some (record p { session = w.stratum });
    outcomes = pass_on w.effects s.outcomes;
  }

  -- The job of the pool's stratum goes out; the call of an empty std::function throws.
  unfoldable pub hand_pool : Option PoolStratum → SmartMining V → Answered V
  hand_pool none s = (none, s)
  hand_pool (some p) s =
      if s.has_update_job then (some true, add (hands_out p.session.job_info) s) else (none, s)

  abbrev pub hand_out : SmartMining V → Answered V
  hand_out s = hand_pool s.stratum_pool s

unfoldable pub new_pool : StratumType → Algorithm → Option PoolStratum
new_pool stratum_type a = elim (new_stratum stratum_type a) [
  | none ↦ none
  | some t ↦ some (record { class = a; session = t })
]
