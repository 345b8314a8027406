-- ===== src/Stratum/Protocol/Autolykos/Stable.antt =====
-- sources/stratum/autolykos_v2.cpp: every handler keeps what is stable.
use luminousminer.Stratum.Host.{Host}
use luminousminer.Stratum.Session.{World}
use luminousminer.Stratum.Session.Keeps.{Keeps, keeps_rules}
use luminousminer.Stratum.Stable.{
  IsStable, KeepsAll, update_job-Keeps, mining_authorize-Keeps, on_share-Keeps, on_authorized-Keeps,
  base_on_unknown_method-Keeps,
}
use luminousminer.Stratum.Protocol.Autolykos.{
  on_response, on_mining_notify, on_mining_set_difficulty, handlers,
}

module _ (H : Host) (P : World H.Value → Type 0) (stable : IsStable P) where
  open H use {Value}

  on_response-Keeps : (root : Value) → Keeps P (on_response H root)
  unfolding on_response
  on_response-Keeps root =
      search (keeps_rules, stable.job, mining_authorize-Keeps, on_authorized-Keeps, on_share-Keeps)
        depth 24 fits 6000

  on_mining_notify-Keeps : (root : Value) → Keeps P (on_mining_notify H root)
  unfolding on_mining_notify
  on_mining_notify-Keeps root =
      search (keeps_rules, stable.job, update_job-Keeps) depth 60 fits 8000

  on_mining_set_difficulty-Keeps : (root : Value) → Keeps P (on_mining_set_difficulty H root)
  unfolding on_mining_set_difficulty
  on_mining_set_difficulty-Keeps root = search (keeps_rules, stable.job) depth 12

  pub handlers-KeepsAll : KeepsAll P (handlers H)
  unfolding handlers
  handlers-KeepsAll = record {
    response = on_response-Keeps;
    mining_set = λ v. search keeps_rules;
    notify = on_mining_notify-Keeps;
    difficulty = on_mining_set_difficulty-Keeps;
    target = λ v. search keeps_rules;
    extra_nonce = λ v. search keeps_rules;
    unknown = base_on_unknown_method-Keeps H P;
  }
