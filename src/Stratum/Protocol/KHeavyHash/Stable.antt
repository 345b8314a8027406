-- ===== src/Stratum/Protocol/KHeavyHash/Stable.antt =====
-- sources/stratum/kheavyhash.cpp: every handler keeps what is stable.
use luminousminer.Prelude.{List, [], ◌∷◌}
use luminousminer.Prelude.Text.{Text}
use luminousminer.Stratum.Host.{Host}
use luminousminer.Stratum.Session.{World}
use luminousminer.Stratum.Session.Keeps.{Keeps, keeps_rules}
use luminousminer.Stratum.Stable.{IsStable, KeepsAll, update_job-Keeps, on_share-Keeps}
use luminousminer.Stratum.Protocol.KHeavyHash.{
  adopt_first, on_subscribed, on_response, accept_job, normal_job, big_job, job_field,
  on_mining_notify, on_mining_set_difficulty, on_mining_set_extra_nonce, on_unknown_method,
  handlers,
}

module _ (H : Host) (P : World H.Value → Type 0) (stable : IsStable P) where
  open H use {Value}

  adopt_first-Keeps : (params : List Value) → Keeps P (adopt_first H params)
  unfolding adopt_first
  adopt_first-Keeps [] = search keeps_rules
  adopt_first-Keeps (a ∷ rest) = search (keeps_rules, stable.job)

  on_response-Keeps : (root : Value) → Keeps P (on_response H root)
  unfolding on_response on_subscribed
  on_response-Keeps root =
      search (keeps_rules, adopt_first-Keeps, stable.authenticated, on_share-Keeps) depth 14 fits
        4000

  accept_job-Keeps : Keeps P (accept_job H)
  unfolding accept_job
  accept_job-Keeps = search (keeps_rules, stable.job, update_job-Keeps)

  normal_job-Keeps : (params words : List Value) → Keeps P (normal_job H params words)
  unfolding normal_job
  normal_job-Keeps params words =
      search (keeps_rules, stable.job, accept_job-Keeps) depth 14 fits 4000

  big_job-Keeps : (blob : Text) → Keeps P (big_job H blob)
  unfolding big_job
  big_job-Keeps blob = search (keeps_rules, stable.job, accept_job-Keeps) depth 14 fits 4000

  on_mining_notify-Keeps : (root : Value) → Keeps P (on_mining_notify H root)
  unfolding on_mining_notify job_field
  on_mining_notify-Keeps root =
      search (keeps_rules, stable.job, normal_job-Keeps, big_job-Keeps) depth 20 fits 8000

  on_mining_set_difficulty-Keeps : (root : Value) → Keeps P (on_mining_set_difficulty H root)
  unfolding on_mining_set_difficulty
  on_mining_set_difficulty-Keeps root = search (keeps_rules, stable.job) depth 9

  on_mining_set_extra_nonce-Keeps : (root : Value) → Keeps P (on_mining_set_extra_nonce H root)
  unfolding on_mining_set_extra_nonce
  on_mining_set_extra_nonce-Keeps root = search (keeps_rules, adopt_first-Keeps) depth 9

  on_unknown_method-Keeps : (root : Value) → Keeps P (on_unknown_method H root)
  unfolding on_unknown_method
  on_unknown_method-Keeps root =
      search (keeps_rules, on_response-Keeps, on_mining_set_extra_nonce-Keeps)

  pub handlers-KeepsAll : KeepsAll P (handlers H)
  unfolding handlers
  handlers-KeepsAll = record {
    response = on_response-Keeps;
    mining_set = λ v. search keeps_rules;
    notify = on_mining_notify-Keeps;
    difficulty = on_mining_set_difficulty-Keeps;
    target = λ v. search keeps_rules;
    extra_nonce = on_mining_set_extra_nonce-Keeps;
    unknown = on_unknown_method-Keeps;
  }
