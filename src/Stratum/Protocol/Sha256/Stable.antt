-- ===== src/Stratum/Protocol/Sha256/Stable.antt =====
-- sources/stratum/sha256.cpp: every handler keeps what is stable.
use luminousminer.Prelude.{ℕ, ◌+◌, List, [], ◌∷◌}
use luminousminer.Stratum.Host.{Host}
use luminousminer.Stratum.Session.{World}
use luminousminer.Stratum.Session.Keeps.{Keeps, keeps_rules, Keeps-done, Keeps-then}
use luminousminer.Stratum.Stable.{
  IsStable, KeepsAll, update_job-Keeps, mining_authorize-Keeps, on_share-Keeps,
  base_on_unknown_method-Keeps,
}
use luminousminer.Stratum.Protocol.Sha256.{
  adopt_method, adopt_methods, on_subscribed, on_response, adopt_branch, adopt_branches,
  adopt_hashes, adopt_numbers, on_mining_notify, handlers,
}

module _ (H : Host) (P : World H.Value → Type 0) (stable : IsStable P) where
  open H use {Value}

  adopt_method-Keeps : (v : Value) → Keeps P (adopt_method H v)
  unfolding adopt_method
  adopt_method-Keeps v = search (keeps_rules, stable.named) depth 16 fits 4000

  adopt_methods-Keeps : (methods : List Value) → Keeps P (adopt_methods H methods)
  unfolding adopt_methods
  adopt_methods-Keeps [] = Keeps-done
  adopt_methods-Keeps (v ∷ vs) = Keeps-then (adopt_method-Keeps v) (adopt_methods-Keeps vs)

  on_subscribed-Keeps : (root : Value) → Keeps P (on_subscribed H root)
  unfolding on_subscribed
  on_subscribed-Keeps root =
      search
        (keeps_rules, adopt_methods-Keeps, stable.job, stable.second_size, mining_authorize-Keeps)
        depth 20 fits 4000

  on_response-Keeps : (root : Value) → Keeps P (on_response H root)
  unfolding on_response
  on_response-Keeps root =
      search (keeps_rules, on_subscribed-Keeps, stable.authenticated, on_share-Keeps) depth 16 fits
        4000

  adopt_branch-Keeps : (i : ℕ) (v : Value) → Keeps P (adopt_branch H i v)
  unfolding adopt_branch
  adopt_branch-Keeps i v = search (keeps_rules, stable.job) depth 16 fits 4000

  adopt_branches-Keeps : (i : ℕ) (branches : List Value) → Keeps P (adopt_branches H i branches)
  unfolding adopt_branches
  adopt_branches-Keeps i [] = Keeps-done
  adopt_branches-Keeps i (v ∷ vs) =
      Keeps-then (adopt_branch-Keeps i v) (adopt_branches-Keeps (i + 1) vs)

  adopt_hashes-Keeps : (params : List Value) → Keeps P (adopt_hashes H params)
  unfolding adopt_hashes
  adopt_hashes-Keeps params = search (keeps_rules, stable.job) depth 40 fits 8000

  adopt_numbers-Keeps : (params : List Value) → Keeps P (adopt_numbers H params)
  unfolding adopt_numbers
  adopt_numbers-Keeps params = search (keeps_rules, stable.job) depth 40 fits 8000

  on_mining_notify-Keeps : (root : Value) → Keeps P (on_mining_notify H root)
  unfolding on_mining_notify
  on_mining_notify-Keeps root =
      search
        (
          keeps_rules, adopt_hashes-Keeps, adopt_numbers-Keeps, stable.job, adopt_branches-Keeps,
          update_job-Keeps,
        )
        depth 40 fits 8000

  pub handlers-KeepsAll : KeepsAll P (handlers H)
  unfolding handlers
  handlers-KeepsAll = record {
    response = on_response-Keeps;
    mining_set = λ v. search keeps_rules;
    notify = on_mining_notify-Keeps;
    difficulty = λ v. search keeps_rules;
    target = λ v. search keeps_rules;
    extra_nonce = λ v. search keeps_rules;
    unknown = base_on_unknown_method-Keeps H P;
  }
