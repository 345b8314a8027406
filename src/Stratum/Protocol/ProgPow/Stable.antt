-- ===== src/Stratum/Protocol/ProgPow/Stable.antt =====
-- sources/stratum/progpow.cpp: every handler keeps what is stable.
use luminousminer.Prelude.{ℕ, List}
use luminousminer.Prelude.Text.{Text}
use luminousminer.Stratum.Host.{Host}
use luminousminer.Stratum.Session.{StratumType, ethereum_v1, ethereum_v2, ethproxy, World, modify}
use luminousminer.Stratum.Session.Keeps.{Keeps, keeps_rules}
use luminousminer.Stratum.Base.{eth_get_work, do_loop_timeout}
use luminousminer.Stratum.Stable.{
  IsStable, KeepsAll, update_job-Keeps, mining_authorize-Keeps, on_share-Keeps, on_authorized-Keeps,
  base_on_unknown_method-Keeps,
}
use luminousminer.Stratum.Protocol.ProgPow.Epoch.{Variant, epoch_of_seed, derive_epoch}
use luminousminer.Stratum.Protocol.ProgPow.Notify.{
  string_at, next_draw, update_epoch, notify_v1, notify_v2, notify_ethproxy, notify_by,
  on_mining_notify,
}
use luminousminer.Stratum.Protocol.ProgPow.Response.{
  number_at, response_v1, on_hello, response_v2, response_ethproxy, response_by, on_response,
}
use luminousminer.Stratum.Protocol.ProgPow.{
  on_mining_set_difficulty, on_mining_set_target, on_mining_set_extra_nonce, set_v2, set_by,
  on_mining_set, handlers,
}

-- What the further dialects change and let out.
pub record IsStableMore {V : Type 0} (P : World V → Type 0) : Type 0 where
  pub errors : (n : ℕ) → Keeps P (modify (λ s. record s { max_errors = n }))
  pub resume : (n : ℕ) → Keeps P (modify (λ s. record s { resume = n }))
  pub timeout : (n : ℕ) → Keeps P (modify (λ s. record s { timeout = n }))
  pub worker : (t : Text) → Keeps P (modify (λ s. record s { worker_id = t }))
  pub drawn : (f : ℕ → ℕ) → Keeps P (modify (λ s. record s { draws = f }))
  pub get_work : Keeps P eth_get_work
  pub loop : Keeps P do_loop_timeout

module _ {V : Type 0} (P : World V → Type 0) (more : IsStableMore P) where
  get_work-Keeps : Keeps P eth_get_work
  get_work-Keeps = more.get_work

  loop-Keeps : Keeps P do_loop_timeout
  loop-Keeps = more.loop

module _ (H : Host) (variant : Variant) (P : World H.Value → Type 0) (stable : IsStable P)
    (more : IsStableMore P) where
  open H use {Value}

  epoch_of_seed-Keeps : Keeps P (epoch_of_seed H)
  unfolding epoch_of_seed
  epoch_of_seed-Keeps = search (keeps_rules, stable.cache)

  derive_epoch-Keeps : Keeps P (derive_epoch H variant)
  unfolding derive_epoch
  derive_epoch-Keeps = search (keeps_rules, epoch_of_seed-Keeps)

  update_epoch-Keeps : Keeps P (update_epoch H variant)
  unfolding update_epoch
  update_epoch-Keeps = search (keeps_rules, derive_epoch-Keeps, stable.job)

  number_at-Keeps : (root : Value) (key : Text) → Keeps P (number_at H variant root key)
  unfolding number_at
  number_at-Keeps root key = search keeps_rules

  string_at-Keeps : (params : List Value) (i : ℕ) → Keeps P (string_at H variant params i)
  unfolding string_at
  string_at-Keeps params i = search keeps_rules

  next_draw-Keeps : Keeps P (next_draw H variant)
  unfolding next_draw
  next_draw-Keeps = search (keeps_rules, more.drawn)

  notify_v1-Keeps : (root : Value) → Keeps P (notify_v1 H variant root)
  unfolding notify_v1
  notify_v1-Keeps root = search (keeps_rules, stable.job, update_epoch-Keeps) depth 60 fits 8000

  notify_v2-Keeps : (root : Value) → Keeps P (notify_v2 H variant root)
  unfolding notify_v2
  notify_v2-Keeps root = search (keeps_rules, stable.job) depth 40 fits 8000

  notify_ethproxy-Keeps : (root : Value) → Keeps P (notify_ethproxy H variant root)
  unfolding notify_ethproxy
  notify_ethproxy-Keeps root =
      search (keeps_rules, stable.job, string_at-Keeps, next_draw-Keeps, update_epoch-Keeps) depth
        60 fits 8000

  notify_by-Keeps : (t : StratumType) (root : Value) → Keeps P (notify_by H variant t root)
  unfolding notify_by
  notify_by-Keeps ethereum_v1 root = notify_v1-Keeps root
  notify_by-Keeps ethereum_v2 root = notify_v2-Keeps root
  notify_by-Keeps ethproxy root = notify_ethproxy-Keeps root

  on_mining_notify-Keeps : (root : Value) → Keeps P (on_mining_notify H variant root)
  unfolding on_mining_notify
  on_mining_notify-Keeps root = search (keeps_rules, notify_by-Keeps, update_job-Keeps)

  response_v1-Keeps : (root : Value) → Keeps P (response_v1 H variant root)
  unfolding response_v1
  response_v1-Keeps root =
      search (keeps_rules, stable.job, mining_authorize-Keeps, on_authorized-Keeps, on_share-Keeps)
        depth 20 fits 4000

  on_hello-Keeps : (root : Value) → Keeps P (on_hello H variant root)
  unfolding on_hello
  on_hello-Keeps root =
      search
        (
          keeps_rules, number_at-Keeps, more.errors, more.resume, more.timeout,
          mining_authorize-Keeps,
        )
        depth 20 fits 4000

  response_v2-Keeps : (root : Value) → Keeps P (response_v2 H variant root)
  unfolding response_v2
  response_v2-Keeps root =
      search
        (keeps_rules, on_hello-Keeps, more.worker, loop-Keeps, stable.authenticated, on_share-Keeps)
        depth 20 fits 4000

  response_ethproxy-Keeps : (root : Value) → Keeps P (response_ethproxy H variant root)
  unfolding response_ethproxy
  response_ethproxy-Keeps root =
      search
        (keeps_rules, on_mining_notify-Keeps, get_work-Keeps, stable.authenticated, on_share-Keeps)
        depth 20 fits 4000

  response_by-Keeps : (t : StratumType) (root : Value) → Keeps P (response_by H variant t root)
  unfolding response_by
  response_by-Keeps ethereum_v1 root = response_v1-Keeps root
  response_by-Keeps ethereum_v2 root = response_v2-Keeps root
  response_by-Keeps ethproxy root = response_ethproxy-Keeps root

  on_response-Keeps : (root : Value) → Keeps P (on_response H variant root)
  unfolding on_response
  on_response-Keeps root = search (keeps_rules, response_by-Keeps)

  on_mining_set_difficulty-Keeps :
      (root : Value) → Keeps P (on_mining_set_difficulty H variant root)
  unfolding on_mining_set_difficulty
  on_mining_set_difficulty-Keeps root = search (keeps_rules, stable.job) depth 12

  on_mining_set_target-Keeps : (root : Value) → Keeps P (on_mining_set_target H variant root)
  unfolding on_mining_set_target
  on_mining_set_target-Keeps root = search (keeps_rules, stable.job) depth 12

  on_mining_set_extra_nonce-Keeps :
      (root : Value) → Keeps P (on_mining_set_extra_nonce H variant root)
  unfolding on_mining_set_extra_nonce
  on_mining_set_extra_nonce-Keeps root = search (keeps_rules, stable.job) depth 9

  set_v2-Keeps : (root : Value) → Keeps P (set_v2 H variant root)
  unfolding set_v2
  set_v2-Keeps root = search (keeps_rules, stable.job) depth 20 fits 4000

  set_by-Keeps : (t : StratumType) (root : Value) → Keeps P (set_by H variant t root)
  unfolding set_by
  set_by-Keeps ethereum_v1 root = search keeps_rules
  set_by-Keeps ethereum_v2 root = set_v2-Keeps root
  set_by-Keeps ethproxy root = search keeps_rules

  on_mining_set-Keeps : (root : Value) → Keeps P (on_mining_set H variant root)
  unfolding on_mining_set
  on_mining_set-Keeps root = search (keeps_rules, set_by-Keeps)

  pub handlers-KeepsAll : KeepsAll P (handlers H variant)
  unfolding handlers
  handlers-KeepsAll = record {
    response = on_response-Keeps;
    mining_set = on_mining_set-Keeps;
    notify = on_mining_notify-Keeps;
    difficulty = on_mining_set_difficulty-Keeps;
    target = on_mining_set_target-Keeps;
    extra_nonce = on_mining_set_extra_nonce-Keeps;
    unknown = base_on_unknown_method-Keeps H P;
  }
