-- ===== src/Stratum/Protocol/Sha256/Idle.antt =====
-- sources/stratum/sha256.cpp: no handler sets a boundary.
use luminousminer.Prelude.{ℕ, ◌+◌, ◌≡◌, refl, Bool, true, List, [], ◌∷◌, set}
use luminousminer.Prelude.Int.{ℤ}
use luminousminer.Prelude.Text.{Text}
use luminousminer.Algo.HashUtils.{is_hash_empty}
use luminousminer.Stratum.JobInfo.{Hash, JobInfo}
use luminousminer.Stratum.Host.{Host}
use luminousminer.Stratum.Session.{World, modify, modify_job}
use luminousminer.Stratum.Session.Keeps.{Keeps, keeps_rules, Keeps-then, Keeps-done}
use luminousminer.Stratum.Stable.{
  KeepsAll, share-Keeps, base_on_unknown_method-Keeps, receive_all, receive_all-keeps,
}
use luminousminer.Stratum.Protocol.Sha256.{
  adopt_method, adopt_methods, on_subscribed, on_response, adopt_branch, adopt_branches,
  adopt_hashes, adopt_numbers, on_mining_notify, handlers,
}
use luminousminer.Stratum.Protocol.Sha256.NoBoundary.{
  jobs_of, IsIdle, job-Keeps, modify-Keeps, authorize-Keeps, replies, update_job-Keeps, extra-Keeps,
  session-Keeps, size-Keeps,
}

module _ (H : Host) (jobs : List JobInfo) where
  open H use {Value, as_array}

  adopt_method-Keeps : (v : Value) → Keeps (IsIdle jobs) (adopt_method H v)
  unfolding adopt_method
  adopt_method-Keeps v = search (keeps_rules, session-Keeps) depth 16 fits 4000

  adopt_methods-Keeps : (methods : List Value) → Keeps (IsIdle jobs) (adopt_methods H methods)
  unfolding adopt_methods
  adopt_methods-Keeps [] = Keeps-done
  adopt_methods-Keeps (v ∷ vs) = Keeps-then (adopt_method-Keeps v) (adopt_methods-Keeps vs)

  on_subscribed-Keeps : (root : Value) → Keeps (IsIdle jobs) (on_subscribed H root)
  unfolding on_subscribed
  on_subscribed-Keeps root =
      search (keeps_rules, adopt_methods-Keeps, extra-Keeps, size-Keeps, authorize-Keeps) depth 20
        fits 4000

  authenticated-Keeps :
      (b : Bool) → Keeps (IsIdle jobs) (modify {V = Value} (λ s. record s { authenticated = b }))
  authenticated-Keeps b = modify-Keeps jobs _ λ s. refl

  on_response-Keeps : (root : Value) → Keeps (IsIdle jobs) (on_response H root)
  unfolding on_response
  on_response-Keeps root =
      search
        (
          keeps_rules,
          on_subscribed-Keeps,
          authenticated-Keeps,
          share-Keeps H (IsIdle jobs) (replies jobs),
        )
        depth 16 fits 4000

  branch-Keeps :
      (i : ℕ) (hash : Hash)
      → Keeps {V = Value}
          (IsIdle jobs)
          (modify_job (λ job. record job { merkletree = set job.merkletree i hash }))
  branch-Keeps i hash = job-Keeps jobs _ λ j. refl

  adopt_branch-Keeps : (i : ℕ) (v : Value) → Keeps (IsIdle jobs) (adopt_branch H i v)
  unfolding adopt_branch
  adopt_branch-Keeps i v = search (keeps_rules, branch-Keeps) depth 16 fits 4000

  adopt_branches-Keeps :
      (i : ℕ) (branches : List Value) → Keeps (IsIdle jobs) (adopt_branches H i branches)
  unfolding adopt_branches
  adopt_branches-Keeps i [] = Keeps-done
  adopt_branches-Keeps i (v ∷ vs) =
      Keeps-then (adopt_branch-Keeps i v) (adopt_branches-Keeps (i + 1) vs)

  header-Keeps :
      (x : Hash)
      → Keeps {V = Value} (IsIdle jobs) (modify_job (λ job. record job { header_hash = x }))
  header-Keeps x = job-Keeps jobs _ λ j. refl

  first-Keeps :
      (x : Hash) → Keeps {V = Value} (IsIdle jobs) (modify_job (λ job. record job { coinb1 = x }))
  first-Keeps x = job-Keeps jobs _ λ j. refl

  second-Keeps :
      (x : Hash) → Keeps {V = Value} (IsIdle jobs) (modify_job (λ job. record job { coinb2 = x }))
  second-Keeps x = job-Keeps jobs _ λ j. refl

  epoch-Keeps :
      (x : ℤ) → Keeps {V = Value} (IsIdle jobs) (modify_job (λ job. record job { epoch = x }))
  epoch-Keeps x = job-Keeps jobs _ λ j. refl

  bits-Keeps :
      (x : ℕ) → Keeps {V = Value} (IsIdle jobs) (modify_job (λ job. record job { target_bits = x }))
  bits-Keeps x = job-Keeps jobs _ λ j. refl

  block-Keeps :
      (x : ℕ)
      → Keeps {V = Value} (IsIdle jobs) (modify_job (λ job. record job { block_number = x }))
  block-Keeps x = job-Keeps jobs _ λ j. refl

  id-Keeps :
      (x : Hash) → Keeps {V = Value} (IsIdle jobs) (modify_job (λ job. record job { job_id = x }))
  id-Keeps x = job-Keeps jobs _ λ j. refl

  clean-Keeps :
      (clean : Bool) (name : Text)
      → Keeps {V = Value}
          (IsIdle jobs)
          (modify_job (λ job. record job { clean_job = clean; job_id_str = name }))
  clean-Keeps clean name = job-Keeps jobs _ λ j. refl

  adopt_hashes-Keeps : (params : List Value) → Keeps (IsIdle jobs) (adopt_hashes H params)
  unfolding adopt_hashes
  adopt_hashes-Keeps params =
      search (keeps_rules, header-Keeps, first-Keeps, second-Keeps) depth 40 fits 8000

  adopt_numbers-Keeps : (params : List Value) → Keeps (IsIdle jobs) (adopt_numbers H params)
  unfolding adopt_numbers
  adopt_numbers-Keeps params =
      search (keeps_rules, epoch-Keeps, bits-Keeps, block-Keeps) depth 40 fits 8000

  on_mining_notify-Keeps : (root : Value) → Keeps (IsIdle jobs) (on_mining_notify H root)
  unfolding on_mining_notify
  on_mining_notify-Keeps root =
      search
        (
          keeps_rules, adopt_hashes-Keeps, adopt_numbers-Keeps, id-Keeps, clean-Keeps,
          adopt_branches-Keeps, update_job-Keeps,
        )
        depth 40 fits 8000

  handlers-KeepsAll : KeepsAll (IsIdle jobs) (handlers H)
  unfolding handlers
  handlers-KeepsAll = record {
    response = on_response-Keeps;
    mining_set = λ v. search keeps_rules;
    notify = on_mining_notify-Keeps;
    difficulty = λ v. search keeps_rules;
    target = λ v. search keeps_rules;
    extra_nonce = λ v. search keeps_rules;
    unknown = base_on_unknown_method-Keeps H (IsIdle jobs);
  }

-- For a session of the SHA-256 protocol whose job has no boundary, as a new one, and whatever messages the
-- pool sends: no job is dispatched.
pub sha256_never_dispatches :
    (H : Host) (messages : List Text) (w : World H.Value)
    → is_hash_empty w.stratum.job_info.boundary ≡ true
    → jobs_of (receive_all H (handlers H) messages w).effects ≡ jobs_of w.effects
unfolding IsIdle
sha256_never_dispatches H messages w empty =
    (receive_all-keeps H (IsIdle (jobs_of w.effects)) (handlers H)
      (handlers-KeepsAll H (jobs_of w.effects)) messages w (empty, refl)).1
