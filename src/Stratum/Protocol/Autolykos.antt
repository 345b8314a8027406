-- ===== src/Stratum/Protocol/Autolykos.antt =====
-- sources/stratum/autolykos_v2.cpp. The mutexes make each handler one step. The handlers of the base class
-- that the protocol leaves as they are do nothing but log.
pub mod Stable
use luminousminer.Prelude.{
  ℕ, Bool, true, false, List, [], ◌∷◌, Option, none, some, ◌==◌, if◌then◌else◌, get_elem?, take,
}
use luminousminer.Prelude.Int.{to_int32}
use luminousminer.Prelude.Text.{Text, codes}
use luminousminer.Prelude.Word.{u32}
use luminousminer.Algo.Autolykos.{compute_period}
use luminousminer.Algo.HashUtils.{to_hash256, to_uint64}
use luminousminer.Algo.HashUtils.Decimal.{decimal_to_hash, to_little_endian}
use luminousminer.Stratum.JobInfo.{JobInfo}
use luminousminer.Stratum.ExtraNonce.{set_extra_nonce2}
use luminousminer.Stratum.Host.{Host, is_nil, get_number}
use luminousminer.Stratum.Session.{
  text, value, World, M, continue_with, ◌>>=◌, ◌>>◌, done, get, session, modify_job,
}
use luminousminer.Stratum.Base.{
  Handlers, id_mining_subscribe, id_mining_authorize, set_boundary, submit_id, worker_text,
  update_job, send_request, base_mining_subscribe, mining_authorize, has_error, on_share,
  on_authorized, base_on_unknown_method, unimplemented, array_at, text_of, bool_of, number_of,
  double_of,
}

module _ (H : Host) where
  open H use {Value, find}

  pub on_response : Value → M Value (Unit {0})
  on_response root = do
    v ← get (find root (codes "id"))
    id ← get (get_number H 32 v)
    if id == id_mining_subscribe
        then (if has_error H root then done else (do
          result ← array_at H root (codes "result")
          if is_nil result then done else (do
            extra ← text_of H result 1
            size ← number_of H 32 result 2
            modify_job (set_extra_nonce2 extra size)
            mining_authorize)))
        else if id == id_mining_authorize
        then on_authorized H root
        else on_share H root id

  pub on_mining_notify : Value → M Value (Unit {0})
  on_mining_notify root = do
    params ← array_at H root (codes "params")
    job_id ← text_of H params 0
    modify_job (λ job. record job { job_id_str = job_id })
    height ← number_of H 64 params 1
    modify_job (λ job. record job { block_number = height })
    header_text ← text_of H params 2
    header ← get (to_hash256 header_text)
    modify_job (λ job. record job { header_hash = header })
    boundary ← text_of H params 6
    modify_job (λ job. record job {
      boundary = take 32 (to_little_endian (decimal_to_hash boundary));
      boundary_u64 = to_uint64 (take 32 (to_little_endian (decimal_to_hash boundary)));
    })
    clean ← bool_of H params 8
    modify_job (λ job. record job { clean_job = clean })
    id ← get (to_hash256 job_id)
    modify_job (λ job. record job {
      job_id = id;
      epoch = to_int32 job.block_number;
      period = compute_period (u32 job.block_number);
    })
    update_job

  pub on_mining_set_difficulty : Value → M Value (Unit {0})
  on_mining_set_difficulty root = do
    params ← array_at H root (codes "params")
    difficulty ← double_of H params 0
    hash ← get (H.double_to_hash difficulty)
    modify_job (set_boundary hash)

  pub mining_submit : ℕ → List Value → M Value (Unit {0})
  mining_submit device_id params = do
    s ← session
    job ← get (get_elem? params 0)
    short ← get (get_elem? params 1)
    nonce ← get (get_elem? params 2)
    send_request (submit_id device_id) (codes "mining.submit") (
        text (worker_text s)
        ∷ value job
        ∷ value short
        ∷ text (codes "undefined")
        ∷ value nonce
        ∷ [])

  pub handlers : Handlers Value
  handlers = record {
    on_response = on_response;
    on_mining_set = unimplemented H;
    on_mining_notify = on_mining_notify;
    on_mining_set_difficulty = on_mining_set_difficulty;
    on_mining_set_target = unimplemented H;
    on_mining_set_extra_nonce = unimplemented H;
    on_unknown_method = base_on_unknown_method H;
    mining_subscribe = base_mining_subscribe;
  }
