-- ===== src/Stratum/Protocol/Ethash/Stable.antt =====
-- sources/stratum/ethash.cpp: every handler keeps what is stable.
use luminousminer.Prelude.{List, [], ◌∷◌}
use luminousminer.Prelude.Int.{pos}
use luminousminer.Stratum.Host.{Host}
use luminousminer.Stratum.Session.{StratumType, ethereum_v1, ethereum_v2, ethproxy, World}
use luminousminer.Stratum.Session.Keeps.{
  Keeps, Keeps-bind, Keeps-then, Keeps-cases, Keeps-session, Keeps-done, keeps_rules,
}
use luminousminer.Stratum.Stable.{
  IsStable, KeepsAll, update_job-Keeps, mining_authorize-Keeps, on_share-Keeps, on_authorized-Keeps,
  base_on_unknown_method-Keeps,
}
use luminousminer.Stratum.Protocol.Ethash.{
  adopt_second, adopt_result, on_subscribed, on_response, update_epoch, on_mining_notify,
  on_mining_set_difficulty, on_mining_set_target, on_mining_set_extra_nonce, handlers,
}

module _ (H : Host) (P : World H.Value → Type 0) (stable : IsStable P) where
  open H use {Value}

  adopt_second-Keeps : (params : List Value) → Keeps P (adopt_second H params)
  unfolding adopt_second
  adopt_second-Keeps [] = search keeps_rules
  adopt_second-Keeps (a ∷ []) = search keeps_rules
  adopt_second-Keeps (a ∷ b ∷ rest) = search (keeps_rules, stable.job)

  on_subscribed-Keeps : (t : StratumType) (root : Value) → Keeps P (on_subscribed H t root)
  unfolding on_subscribed adopt_result
  on_subscribed-Keeps ethereum_v1 root =
      search (keeps_rules, adopt_second-Keeps, mining_authorize-Keeps)
  on_subscribed-Keeps ethereum_v2 root =
      search (keeps_rules, stable.job, mining_authorize-Keeps) depth 9
  on_subscribed-Keeps ethproxy root =
      search (keeps_rules, stable.job, mining_authorize-Keeps) depth 9

  on_response-Keeps : (root : Value) → Keeps P (on_response H root)
  unfolding on_response
  on_response-Keeps root =
      search (keeps_rules, on_subscribed-Keeps, on_authorized-Keeps H P stable, on_share-Keeps)
        depth 9

  update_epoch-Keeps : Keeps P (update_epoch H)
  unfolding update_epoch
  update_epoch-Keeps = Keeps-bind Keeps-session λ s.
      Keeps-then (stable.cache _)
        (Keeps-cases _ Keeps-done (λ e. stable.job (λ job. record job { epoch = pos e })))

  on_mining_notify-Keeps : (root : Value) → Keeps P (on_mining_notify H root)
  unfolding on_mining_notify
  on_mining_notify-Keeps root =
      search (keeps_rules, stable.job, update_epoch-Keeps, update_job-Keeps) depth 40 fits 8000

  on_mining_set_difficulty-Keeps : (root : Value) → Keeps P (on_mining_set_difficulty H root)
  unfolding on_mining_set_difficulty
  on_mining_set_difficulty-Keeps root = search (keeps_rules, stable.job) depth 12

  on_mining_set_target-Keeps : (root : Value) → Keeps P (on_mining_set_target H root)
  unfolding on_mining_set_target
  on_mining_set_target-Keeps root = search (keeps_rules, stable.job) depth 9

  on_mining_set_extra_nonce-Keeps : (root : Value) → Keeps P (on_mining_set_extra_nonce H root)
  unfolding on_mining_set_extra_nonce
  on_mining_set_extra_nonce-Keeps root = search (keeps_rules, stable.job) depth 9

  pub handlers-KeepsAll : KeepsAll P (handlers H)
  unfolding handlers
  handlers-KeepsAll = record {
    response = on_response-Keeps;
    mining_set = λ v. search keeps_rules;
    notify = on_mining_notify-Keeps;
    difficulty = on_mining_set_difficulty-Keeps;
    target = on_mining_set_target-Keeps;
    extra_nonce = on_mining_set_extra_nonce-Keeps;
    unknown = base_on_unknown_method-Keeps H P;
  }
