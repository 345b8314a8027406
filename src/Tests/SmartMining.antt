-- ===== src/Tests/SmartMining.antt =====
-- sources/stratum/smart_mining.cpp at concrete inputs.
use luminousminer.Prelude.{refl, true, List, [], ◌∷◌, none}
use luminousminer.Prelude.Text.{Text, codes}
use luminousminer.Algo.AlgoType.{unknown}
use luminousminer.Stratum.Session.{ethereum_v1}
use luminousminer.Stratum.SmartMining.{SmartMining}
use luminousminer.Stratum.SmartMining.Messages.{on_receive, receive_all}
use luminousminer.Stratum.SmartMining.Trace.{IsInOrder}
use luminousminer.Stratum.SmartMining.Handed.{handed, IsServedJob, receive_all-IsInOrder}
use luminousminer.Tests.Concrete.{Json, small_host}

abbrev smart_messages : List Text
smart_messages =
    codes "algorithm" ∷ codes "range" ∷ codes "target" ∷ codes "notify" ∷ codes "share" ∷ []

abbrev small_client : SmartMining Json
small_client = record {
  worker_name = codes "rig";
  password = codes "x";
  stratum_pool = none;
  current_algorithm = unknown;
  has_set_algorithm = true;
  has_update_job = true;
  has_share_status = true;
  outcomes = [];
}

receive_all-IsInOrder_example :
    IsServedJob (handed (receive_all small_host ethereum_v1 smart_messages small_client).outcomes) (
      on_receive small_host ethereum_v1
        (codes "notify")
        (receive_all small_host ethereum_v1 smart_messages small_client))
    × IsInOrder small_host
        (on_receive small_host ethereum_v1
          (codes "notify")
          (receive_all small_host ethereum_v1 smart_messages small_client)).outcomes
receive_all-IsInOrder_example =
    receive_all-IsInOrder small_host ethereum_v1 smart_messages (codes "notify") small_client refl
      refl
