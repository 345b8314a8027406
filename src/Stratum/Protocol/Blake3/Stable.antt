-- ===== src/Stratum/Protocol/Blake3/Stable.antt =====
-- sources/stratum/blake3.cpp: every handler keeps what is stable.
use luminousminer.Prelude.{ℕ}
use luminousminer.Prelude.Text.{Text}
use luminousminer.Stratum.Host.{Host}
use luminousminer.Stratum.Session.{World}
use luminousminer.Stratum.Session.Keeps.{Keeps, keeps_rules}
use luminousminer.Stratum.Stable.{IsStable, KeepsAll, update_job-Keeps, on_share-Keeps}
use luminousminer.Stratum.Protocol.Blake3.{
  on_response, number_at, on_mining_notify, on_mining_set_difficulty, on_mining_set_extra_nonce,
  on_unknown_method, handlers,
}

module _ (H : Host) (P : World H.Value → Type 0) (stable : IsStable P) where
  open H use {Value}

  on_response-Keeps : (root : Value) → Keeps P (on_response H root)
  unfolding on_response
  on_response-Keeps root = search (keeps_rules, stable.authenticated, on_share-Keeps) depth 9

  number_at-Keeps : (width : ℕ) (root : Value) (key : Text) → Keeps P (number_at H width root key)
  unfolding number_at
  number_at-Keeps width root key = search keeps_rules

  on_mining_notify-Keeps : (root : Value) → Keeps P (on_mining_notify H root)
  unfolding on_mining_notify
  on_mining_notify-Keeps root =
      search (keeps_rules, number_at-Keeps, stable.job, update_job-Keeps) depth 40 fits 8000

  on_mining_set_difficulty-Keeps : (root : Value) → Keeps P (on_mining_set_difficulty H root)
  unfolding on_mining_set_difficulty
  on_mining_set_difficulty-Keeps root = search (keeps_rules, stable.job) depth 12

  on_mining_set_extra_nonce-Keeps : (root : Value) → Keeps P (on_mining_set_extra_nonce H root)
  unfolding on_mining_set_extra_nonce
  on_mining_set_extra_nonce-Keeps root = search (keeps_rules, stable.job) depth 9

  on_unknown_method-Keeps : (root : Value) → Keeps P (on_unknown_method H root)
  unfolding on_unknown_method
  on_unknown_method-Keeps root = search (keeps_rules, on_response-Keeps)

  pub handlers-KeepsAll : KeepsAll P (handlers H)
  unfolding handlers
  handlers-KeepsAll = record {
    response = on_response-Keeps;
    mining_set = λ v. search keeps_rules;
    notify = on_mining_notify-Keeps;
    difficulty = on_mining_set_difficulty-Keeps;
    target = λ v. search keeps_rules;
    extra_nonce = on_mining_set_extra_nonce-Keeps;
    unknown = on_unknown_method-Keeps;
  }
