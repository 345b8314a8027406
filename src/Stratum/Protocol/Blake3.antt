-- ===== src/Stratum/Protocol/Blake3.antt =====
-- sources/stratum/blake3.cpp, the Alephium protocol. The mutexes make each handler one step.
pub mod Stable
use luminousminer.Prelude.{
  ℕ, zero, suc, ◌-◌, Bool, true, false, List, [], ◌∷◌, Option, none, some, ◌==◌, if◌then◌else◌,
}
use luminousminer.Prelude.Int.{pos, negsuc, int_eq}
use luminousminer.Prelude.Text.{Text, codes, text_eq}
use luminousminer.Algo.HashUtils.{to_hash256, to_hash_left, to_uint64}
use luminousminer.Stratum.JobInfo.{JobInfo}
use luminousminer.Stratum.ExtraNonce.{set_extra_nonce}
use luminousminer.Stratum.Host.{Host, get_number}
use luminousminer.Stratum.Session.{
  named_text, named_number, World, M, continue_with, ◌>>=◌, ◌>>◌, done, get, session, modify,
  modify_job,
}
use luminousminer.Stratum.Base.{
  Handlers, id_mining_authorize, submit_id, worker_text, update_job, send_request, mining_authorize,
  on_share, unimplemented, array_at, text_at, text_of, double_of, string_or_empty, set_boundary,
}

module _ (H : Host) where
  open H use {Value, find, as_bool, as_object}

  -- `contains("result") && is_bool() && as_bool()`.
  pub accepted : Value → Bool
  accepted root = elim (find root (codes "result")) [
    | none ↦ false
    | some r ↦ elim (as_bool r) [ none ↦ false | some b ↦ b ]
  ]

  pub on_response : Value → M Value (Unit {0})
  unfolding accepted
  on_response root = do
    v ← get (find root (codes "id"))
    id ← get (get_number H 32 v)
    if id == id_mining_authorize
        then modify (λ s. record s { authenticated = accepted root })
        else on_share H root id

  pub on_unknown_method : Value → M Value (Unit {0})
  on_unknown_method root =
      if text_eq (string_or_empty H root (codes "method")) (codes "mining.authorize")
      then on_response root
      else done

  -- `params[length - 1]`; on an empty array the source reads out of bounds, and `none` stands here.
  pub last_param : List Value → Option Value
  last_param [] = none
  last_param (v ∷ []) = some v
  last_param (v ∷ w ∷ rest) = last_param (w ∷ rest)

  pub number_at : ℕ → Value → Text → M Value ℕ
  number_at width root key = do v ← get (find root key); get (get_number H width v)

  pub on_mining_notify : Value → M Value (Unit {0})
  unfolding last_param number_at
  on_mining_notify root = do
    params ← array_at H root (codes "params")
    last ← get (last_param params)
    job_param ← get (as_object last)
    job_id ← text_at H job_param (codes "jobId")
    modify_job (λ job. record job { job_id_str = job_id })
    from ← number_at 32 job_param (codes "fromGroup")
    modify_job (λ job. record job { from_group = from })
    to ← number_at 32 job_param (codes "toGroup")
    modify_job (λ job. record job { to_group = to })
    target ← get (to_hash256 (string_or_empty H job_param (codes "targetBlob")))
    modify_job (λ job. record job { target_blob = target })
    blob ← get (to_hash_left 384 (string_or_empty H job_param (codes "headerBlob")))
    modify_job (λ job. record job {
      header_blob = blob;
      boundary = job.target_blob;
      boundary_u64 = to_uint64 job.target_blob;
    })
    id ← get (to_hash256 job_id)
    modify_job (λ job. record job {
      job_id = id;
      epoch = if int_eq job.epoch (negsuc 0) then pos 1 else job.epoch;
    })
    update_job

  pub on_mining_set_difficulty : Value → M Value (Unit {0})
  on_mining_set_difficulty root = do
    params ← array_at H root (codes "params")
    difficulty ← double_of H params 0
    hash ← get (H.double_to_hash difficulty)
    modify_job (set_boundary hash)

  pub on_mining_set_extra_nonce : Value → M Value (Unit {0})
  on_mining_set_extra_nonce root = do
    params ← array_at H root (codes "params")
    extra ← text_of H params 0
    modify_job (set_extra_nonce extra)

  pub mining_submit : ℕ → Value → M Value (Unit {0})
  unfolding number_at
  mining_submit device_id params = do
    s ← session
    from ← number_at 32 params (codes "fromGroup")
    to ← number_at 32 params (codes "toGroup")
    send_request (submit_id device_id) (codes "mining.submit") (
        named_text (codes "jobId") (string_or_empty H params (codes "jobId"))
        ∷ named_number (codes "fromGroup") from
        ∷ named_number (codes "toGroup") to
        ∷ named_text (codes "nonce") (string_or_empty H params (codes "nonce"))
        ∷ named_text (codes "worker") (worker_text s)
        ∷ [])

  pub handlers : Handlers Value
  handlers = record {
    on_response = on_response;
    on_mining_set = unimplemented H;
    on_mining_notify = on_mining_notify;
    on_mining_set_difficulty = on_mining_set_difficulty;
    on_mining_set_target = unimplemented H;
    on_mining_set_extra_nonce = on_mining_set_extra_nonce;
    on_unknown_method = on_unknown_method;
    mining_subscribe = mining_authorize;
  }
