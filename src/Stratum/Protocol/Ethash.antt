-- ===== src/Stratum/Protocol/Ethash.antt =====
-- sources/stratum/ethash.cpp and etchash.cpp, which differ in `maxEpochNumber` only. The mutexes
-- make each handler one step.
pub mod Stable
use luminousminer.Prelude.{
  ℕ, Bool, true, false, not, ◌&&◌, List, [], ◌∷◌, Option, none, some, leb, ◌==◌, if◌then◌else◌,
  length, get_elem?,
}
use luminousminer.Prelude.Int.{pos}
use luminousminer.Prelude.Text.{Text, codes, c_str, strtoull}
use luminousminer.Prelude.Word.{u32}
use luminousminer.Algo.Epoch.{find_epoch}
use luminousminer.Algo.HashUtils.{to_hash256}
use luminousminer.Stratum.JobInfo.{JobInfo}
use luminousminer.Stratum.ExtraNonce.{set_extra_nonce}
use luminousminer.Stratum.Host.{Host, is_nil, get_number}
use luminousminer.Stratum.Session.{
  Stratum, StratumType, ethereum_v1, ethereum_v2, ethproxy, text, value, World, M, continue_with,
  cases, ◌>>=◌, ◌>>◌, done, get, session, modify, modify_job,
}
use luminousminer.Stratum.Base.{
  Handlers, id_mining_subscribe, id_mining_authorize, set_boundary, submit_id, worker_text,
  update_job, send_request, base_mining_subscribe, mining_authorize, has_error, on_share,
  on_authorized, base_on_unknown_method, unimplemented, array_at, text_of, bool_of, double_of,
}

module _ (H : Host) where
  open H use {Value, Double, find, as_string, as_array, double_le, double_mul, double_div, literal}

  -- The extra nonce is also read as the target bits, a uint32_t.
  adopt_extra_nonce : Text → JobInfo → JobInfo
  adopt_extra_nonce extra job = record (set_extra_nonce extra job) {
    target_bits = u32 (strtoull extra);
  }

  -- ETHEREUM_V1: the second element of the result, if it is there and a string.
  pub adopt_second : List Value → M Value (Unit {0})
  unfolding adopt_extra_nonce
  adopt_second [] = done
  adopt_second (first ∷ []) = done
  adopt_second (first ∷ second ∷ rest) =
      cases (as_string second) done λ s. modify_job (adopt_extra_nonce (c_str s))

  pub adopt_result : Value → M Value (Unit {0})
  adopt_result root =
      cases (find root (codes "result")) done λ r. cases (as_array r) done adopt_second

  pub on_subscribed : StratumType → Value → M Value (Unit {0})
  unfolding adopt_result adopt_extra_nonce
  on_subscribed ethereum_v1 root = adopt_result root >> mining_authorize
  on_subscribed _ root = do
    result ← array_at H root (codes "result")
    if is_nil result
        then done
        else (do extra ← text_of H result 1; modify_job (adopt_extra_nonce extra); mining_authorize)

  pub on_response : Value → M Value (Unit {0})
  unfolding on_subscribed
  on_response root = do
    v ← get (find root (codes "id"))
    id ← get (get_number H 32 v)
    if id == id_mining_subscribe
        then (if has_error H root
            then done
            else (do s ← session; on_subscribed s.stratum_type root))
        else if id == id_mining_authorize
        then on_authorized H root
        else on_share H root id

  -- The epoch of the seed; an unknown seed leaves the epoch as it is.
  pub update_epoch : M Value (Unit {0})
  update_epoch = do
    s ← session
    let (found, cache) = find_epoch H.keccak s.job_info.seed_hash s.max_epoch_number s.epoch_cache
    modify (λ s. record s { epoch_cache = cache })
    cases found done λ e. modify_job (λ job. record job { epoch = pos e })

  pub on_mining_notify : Value → M Value (Unit {0})
  on_mining_notify root = do
    params ← array_at H root (codes "params")
    job_id ← text_of H params 0
    seed_text ← text_of H params 1
    seed ← get (to_hash256 seed_text)
    modify_job (λ job. record job { seed_hash = seed })
    header_text ← text_of H params 2
    header ← get (to_hash256 header_text)
    modify_job (λ job. record job { header_hash = header })
    clean ← bool_of H params 3
    modify_job (λ job. record job { clean_job = clean; job_id_str = job_id })
    id ← get (to_hash256 job_id)
    modify_job (λ job. record job { job_id = id })
    update_epoch
    update_job

  -- `min_limit` and `max_limit` of common/custom.hpp.
  pub min_limit : Double → Double → Double
  min_limit amount minimum = if double_le minimum amount then amount else minimum

  pub max_limit : Double → Double → Double
  max_limit amount maximum = if double_le amount maximum then amount else maximum

  pub scaled_difficulty : Double → Double
  unfolding min_limit max_limit
  scaled_difficulty current =
      let two = literal 2 0 in
      let scaled = double_div (double_mul current two) (literal 8589934592 0) in
      max_limit (min_limit (if double_le current two then current else scaled) (literal 1 4)) two

  pub on_mining_set_difficulty : Value → M Value (Unit {0})
  unfolding scaled_difficulty
  on_mining_set_difficulty root = do
    params ← array_at H root (codes "params")
    current ← double_of H params 0
    hash ← get (H.double_to_hash (scaled_difficulty current))
    modify_job (set_boundary hash)

  pub on_mining_set_target : Value → M Value (Unit {0})
  on_mining_set_target root = do
    params ← array_at H root (codes "params")
    boundary ← text_of H params 0
    hash ← get (to_hash256 boundary)
    modify_job (set_boundary hash)

  pub on_mining_set_extra_nonce : Value → M Value (Unit {0})
  on_mining_set_extra_nonce root = do
    params ← array_at H root (codes "params")
    extra ← text_of H params 0
    modify_job (set_extra_nonce extra)

  pub mining_submit : ℕ → List Value → M Value (Unit {0})
  mining_submit device_id params = do
    s ← session
    job ← get (get_elem? params 0)
    nonce ← get (get_elem? params 1)
    send_request (submit_id device_id) (codes "mining.submit")
        (text (worker_text s) ∷ value job ∷ value nonce ∷ [])

  pub handlers : Handlers Value
  handlers = record {
    on_response = on_response;
    on_mining_set = unimplemented H;
    on_mining_notify = on_mining_notify;
    on_mining_set_difficulty = on_mining_set_difficulty;
    on_mining_set_target = on_mining_set_target;
    on_mining_set_extra_nonce = on_mining_set_extra_nonce;
    on_unknown_method = base_on_unknown_method H;
    mining_subscribe = base_mining_subscribe;
  }
