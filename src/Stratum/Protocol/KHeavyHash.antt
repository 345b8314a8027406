-- ===== src/Stratum/Protocol/KHeavyHash.antt =====
-- sources/stratum/kheavyhash.cpp. The mutexes make each handler one step.
pub mod Stable
use mathlib.Core.List.{reverse}
use luminousminer.Prelude.{
  ℕ, zero, suc, ◌+◌, ◌*◌, Bool, true, false, not, ◌||◌, List, [], ◌∷◌, ◌++◌, Option, none, some,
  ltb, leb, ◌==◌, if◌then◌else◌, length, get_elem?, take, drop, replicate,
}
use luminousminer.Prelude.Int.{pos}
use luminousminer.Prelude.Text.{Text, codes, text_eq, c_str, stoul}
use luminousminer.Prelude.Word.{u8}
use luminousminer.Algo.KHeavyHash.StratumMath.{pre_pow_from_words, target_of_divisor}
use luminousminer.Stratum.JobInfo.{Hash, JobInfo, zero_hash}
use luminousminer.Stratum.ExtraNonce.{set_extra_nonce}
use luminousminer.Stratum.Host.{Host, is_nil, get_number}
use luminousminer.Stratum.Session.{
  text, value, World, M, continue_with, cases, ◌>>=◌, ◌>>◌, done, get, session, modify, modify_job,
}
use luminousminer.Stratum.Base.{
  Handlers, id_mining_subscribe, id_mining_authorize, submit_id, worker_text, update_job,
  send_request, base_mining_subscribe, mining_authorize, has_error, on_share, unimplemented,
  array_at, text_of, double_of, number_of, string_or_empty,
}

-- `bytes[i]` for the pairs of digits from `i` on.
pub read_blob : ℕ → ℕ → Text → Option (List ℕ)
read_blob zero i blob = some []
read_blob (suc left) i blob = elim (stoul (take 2 (drop (i * 2) blob))) [
  | none ↦ none
  | some b ↦ elim (read_blob left (i + 1) blob) [ none ↦ none | some bs ↦ some (u8 b ∷ bs) ]
]

-- The timestamp behind the header, least significant byte first.
pub little_endian : List ℕ → ℕ
little_endian [] = 0
little_endian (b ∷ bs) = b + 256 * little_endian bs

-- `high = (high << 8) | byte`, from the last byte of the boundary on.
pub read_high : ℕ → List ℕ → ℕ
read_high high [] = high
read_high high (b ∷ bs) = read_high (high * 256 + b) bs

module _ (H : Host) where
  open H use {Value, Double, find, as_string, as_array, double_le, double_lt, double_mul, literal}

  -- The first element of an array, if it is there and a string.
  pub adopt_first : List Value → M Value (Unit {0})
  adopt_first [] = done
  adopt_first (first ∷ rest) =
      cases (as_string first) done λ s. modify_job (set_extra_nonce (c_str s))

  pub on_subscribed : Value → M Value (Unit {0})
  unfolding adopt_first
  on_subscribed root =
      cases (find root (codes "result")) done λ r. cases (as_array r) done adopt_first

  pub on_response : Value → M Value (Unit {0})
  unfolding on_subscribed
  on_response root = do
    v ← get (find root (codes "id"))
    id ← get (get_number H 32 v)
    if id == id_mining_subscribe
        then on_subscribed root
        else if id == id_mining_authorize
        then (if has_error H root then done else modify (λ s. record s { authenticated = true }))
        else on_share H root id

  -- The numbers of an array, each a uint64_t.
  numbers : List Value → Option (List ℕ)
  numbers [] = some []
  numbers (v ∷ vs) = elim (get_number H 64 v) [
    | none ↦ none
    | some n ↦ elim (numbers vs) [ none ↦ none | some ns ↦ some (n ∷ ns) ]
  ]

  -- The end of `onMiningNotify`: the header names the job, and the nonces start over.
  pub accept_job : M Value (Unit {0})
  accept_job = do
    modify_job
        (λ job. record job { job_id = job.header_hash; nonce = job.start_nonce; epoch = pos 1 })
    update_job

  -- [ id, [ four words ], timestamp ]
  pub normal_job : List Value → List Value → M Value (Unit {0})
  unfolding numbers accept_job
  normal_job params words = if not (length words == 4) || ltb (length params) 3 then done else do
    pre_pow ← get (numbers words)
    modify_job (λ job. record job { header_hash = pre_pow_from_words pre_pow })
    timestamp ← number_of H 64 params 2
    modify_job (λ job. record job { timestamp = timestamp })
    accept_job

  -- [ id, 80 digits ]
  pub big_job : Text → M Value (Unit {0})
  unfolding read_blob little_endian accept_job
  big_job blob = if ltb (length blob) 80 then done else do
    bytes ← get (read_blob 40 0 blob)
    modify_job (λ job. record job {
      header_hash = take 32 bytes;
      timestamp = little_endian (drop 32 bytes);
    })
    accept_job

  pub job_field : List Value → Value → M Value (Unit {0})
  unfolding normal_job big_job
  job_field params field =
      cases (as_array field) (cases (as_string field) done λ blob. big_job (c_str blob))
        (normal_job params)

  pub on_mining_notify : Value → M Value (Unit {0})
  unfolding job_field
  on_mining_notify root = do
    params ← array_at H root (codes "params")
    if ltb (length params) 2 then done else (do
      job_id ← text_of H params 0
      modify_job (λ job. record job { job_id_str = job_id })
      field ← get (get_elem? params 1)
      job_field params field)

  -- `difficultyToTargetLe`: a difficulty that is not positive, or too small, has the zero target.
  pub difficulty_to_target : Double → Hash
  difficulty_to_target diff =
      let scaled = H.double_round (double_mul diff (literal 65536 0)) in
      if double_le diff (literal 0 0) || double_lt scaled (literal 1 0)
      then zero_hash 32
      else target_of_divisor (H.truncate 64 scaled)

  -- The boundary, and its most significant 64 bits, guarded to be non-zero.
  pub set_target : Hash → JobInfo → JobInfo
  unfolding read_high
  set_target target job =
      let high = read_high 0 (take 8 (reverse target)) in
      record job { boundary = target; boundary_u64 = if high == 0 then 1 else high }

  pub on_mining_set_difficulty : Value → M Value (Unit {0})
  unfolding difficulty_to_target set_target
  on_mining_set_difficulty root = do
    params ← array_at H root (codes "params")
    difficulty ← double_of H params 0
    modify_job (set_target (difficulty_to_target difficulty))

  pub on_mining_set_extra_nonce : Value → M Value (Unit {0})
  unfolding adopt_first
  on_mining_set_extra_nonce root = do params ← array_at H root (codes "params"); adopt_first params

  pub on_unknown_method : Value → M Value (Unit {0})
  on_unknown_method root =
      let method = string_or_empty H root (codes "method") in
      if text_eq method (codes "mining.authorize")
      then on_response root
      else if text_eq method (codes "set_extranonce")
      then on_mining_set_extra_nonce root
      else done

  pub mining_subscribe : M Value (Unit {0})
  mining_subscribe = base_mining_subscribe >> mining_authorize

  pub mining_submit : ℕ → List Value → M Value (Unit {0})
  mining_submit device_id params = do
    s ← session
    job ← get (get_elem? params 0)
    nonce ← get (get_elem? params 1)
    send_request (submit_id device_id) (codes "mining.submit")
        (text (worker_text s) ∷ value job ∷ value nonce ∷ [])

  pub handlers : Handlers Value
  handlers = record {
    on_response = on_response;
    on_mining_set = unimplemented H;
    on_mining_notify = on_mining_notify;
    on_mining_set_difficulty = on_mining_set_difficulty;
    on_mining_set_target = unimplemented H;
    on_mining_set_extra_nonce = on_mining_set_extra_nonce;
    on_unknown_method = on_unknown_method;
    mining_subscribe = mining_subscribe;
  }
