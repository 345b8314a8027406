-- ===== src/Stratum/Protocol/Sha256.antt =====
-- sources/stratum/sha256.cpp. The mutexes make each handler one step. The handlers of the base class that
-- the protocol leaves as they are do nothing but log.
pub mod NoBoundary
pub mod Idle
pub mod Stable
use luminousminer.Prelude.{
  ℕ, ◌+◌, Bool, true, false, List, [], ◌∷◌, ◌++◌, Option, none, some, ltb, ◌==◌, if◌then◌else◌,
  get_elem?, set,
}
use luminousminer.Prelude.Text.{Text, codes, c_str, text_eq, strtoull}
use luminousminer.Prelude.Word.{u32}
use luminousminer.Algo.HashUtils.{to_hash256, to_hash1024, to_hash, to_hex}
use luminousminer.Stratum.JobInfo.{JobInfo}
use luminousminer.Stratum.ExtraNonce.{set_extra_nonce}
use luminousminer.Stratum.Host.{Host, is_nil, get_number, get_int32}
use luminousminer.Stratum.Session.{
  text, value, World, M, continue_with, ◌>>=◌, ◌>>◌, done, get, session, modify, modify_job,
}
use luminousminer.Stratum.Base.{
  Handlers, id_mining_subscribe, id_mining_authorize, submit_id, worker_text, update_job,
  send_request, mining_authorize, software_name, on_share, base_on_unknown_method, unimplemented,
  array_at, text_of, bool_of, number_of,
}

module _ (H : Host) where
  open H use {Value, find, as_string, as_bool, as_array, is_null}

  pub adopt_method : Value → M Value (Unit {0})
  adopt_method v = do
    method ← get (as_array v)
    name ← text_of H method 0
    if text_eq name (codes "mining.notify")
        then (do id ← text_of H method 1; modify (λ s. record s { session_id = id }))
        else done

  -- The loop over the methods of a subscription.
  pub adopt_methods : List Value → M Value (Unit {0})
  unfolding adopt_method
  adopt_methods [] = done
  adopt_methods (v ∷ vs) = adopt_method v >> adopt_methods vs

  pub on_subscribed : Value → M Value (Unit {0})
  unfolding adopt_methods
  on_subscribed root = do
    result ← array_at H root (codes "result")
    if is_nil result then done else (do
      first ← get (get_elem? result 0)
      methods ← get (as_array first)
      adopt_methods methods
      extra ← text_of H result 1
      modify_job (set_extra_nonce extra)
      size ← number_of H 32 result 2
      modify (λ s. record s { extra_nonce2_size = size })
      mining_authorize)

  -- Here a missing `error` is an exception.
  pub on_response : Value → M Value (Unit {0})
  unfolding on_subscribed
  on_response root = do
    v ← get (find root (codes "id"))
    id ← get (get_number H 32 v)
    if id == id_mining_subscribe
        then (do
          e ← get (find root (codes "error"))
          if is_null e then on_subscribed root else done)
        else if id == id_mining_authorize
        then (do
          e ← get (find root (codes "error"))
          if is_null e
              then (do
                r ← get (find root (codes "result"))
                accepted ← get (as_bool r)
                modify (λ s. record s { authenticated = accepted }))
              else done)
        else on_share H root id

  -- There are 12 places; behind them the source writes out of bounds, and `none` stands here.
  pub adopt_branch : ℕ → Value → M Value (Unit {0})
  adopt_branch i v = do
    branch ← get (as_string v)
    hash ← get (to_hash256 (c_str branch))
    place ← get (if ltb i 12 then some i else none)
    modify_job (λ job. record job { merkletree = set job.merkletree place hash })

  -- The loop over the branches from index i on.
  pub adopt_branches : ℕ → List Value → M Value (Unit {0})
  unfolding adopt_branch
  adopt_branches i [] = done
  adopt_branches i (v ∷ vs) = adopt_branch i v >> adopt_branches (i + 1) vs

  -- The hashes of a job.
  pub adopt_hashes : List Value → M Value (Unit {0})
  adopt_hashes params = do
    header_text ← text_of H params 1
    header ← get (to_hash256 header_text)
    modify_job (λ job. record job { header_hash = header })
    first_text ← text_of H params 2
    first ← get (to_hash1024 first_text)
    modify_job (λ job. record job { coinb1 = first })
    second_text ← text_of H params 3
    second ← get (to_hash 256 second_text)
    modify_job (λ job. record job { coinb2 = second })

  -- Its numbers.
  pub adopt_numbers : List Value → M Value (Unit {0})
  adopt_numbers params = do
    epoch_value ← get (get_elem? params 5)
    e ← get (get_int32 H epoch_value)
    modify_job (λ job. record job { epoch = e })
    bits ← text_of H params 6
    modify_job (λ job. record job { target_bits = u32 (strtoull bits) })
    block ← number_of H 64 params 7
    modify_job (λ job. record job { block_number = block })

  pub on_mining_notify : Value → M Value (Unit {0})
  unfolding adopt_branches adopt_hashes adopt_numbers
  on_mining_notify root = do
    params ← array_at H root (codes "params")
    job_id ← text_of H params 0
    adopt_hashes params
    tree ← get (get_elem? params 4)
    branches ← get (as_array tree)
    adopt_numbers params
    clean ← bool_of H params 8
    modify_job (λ job. record job { clean_job = clean; job_id_str = job_id })
    id ← get (to_hash256 job_id)
    modify_job (λ job. record job { job_id = id })
    adopt_branches 0 branches
    update_job

  pub mining_subscribe : M Value (Unit {0})
  mining_subscribe =
      send_request id_mining_subscribe (codes "mining.subscribe") (text software_name ∷ [])

  pub mining_submit : ℕ → List Value → M Value (Unit {0})
  mining_submit device_id params = do
    s ← session
    job ← get (get_elem? params 0)
    nonce ← get (get_elem? params 1)
    mix ← get (get_elem? params 2)
    send_request (submit_id device_id) (codes "mining.submit") (
        text (worker_text s)
        ∷ value job
        ∷ value nonce
        ∷ text (codes "0x" ++ to_hex s.job_info.header_hash)
        ∷ value mix
        ∷ [])

  pub handlers : Handlers Value
  handlers = record {
    on_response = on_response;
    on_mining_set = unimplemented H;
    on_mining_notify = on_mining_notify;
    on_mining_set_difficulty = unimplemented H;
    on_mining_set_target = unimplemented H;
    on_mining_set_extra_nonce = unimplemented H;
    on_unknown_method = base_on_unknown_method H;
    mining_subscribe = mining_subscribe;
  }
