-- ===== src/Stratum/Protocol/ProgPow.antt =====
-- sources/stratum/progpow.cpp, with kawpow.cpp, meowpow.cpp, evrprogpow.cpp, progpow_quai.cpp,
-- progpow_z.cpp and firopow.cpp, which differ in a few numbers and in `deriveEpoch`. The mutexes make
-- each handler one step.
pub mod Epoch
pub mod Notify
pub mod Response
pub mod Stable
use luminousminer.Prelude.{
  ℕ, zero, suc, ◌+◌, ◌*◌, ◌/◌, ◌%◌, ◌^◌, Bool, true, false, not, ◌&&◌, ◌||◌, List, [], ◌∷◌, ◌++◌,
  Option, none, some, ltb, ◌==◌, if◌then◌else◌, get_elem?,
}
use luminousminer.Prelude.Int.{negsuc, int_eq, to_int32}
use luminousminer.Prelude.Text.{Text, codes, c_str, text_eq, is_empty, strtoull, stoull}
use luminousminer.Prelude.Word.{u32}
use luminousminer.Algo.HashUtils.{to_hash256, to_hex, to_uint64}
use luminousminer.Stratum.JobInfo.{JobInfo}
use luminousminer.Stratum.ExtraNonce.{set_extra_nonce}
use luminousminer.Stratum.Host.{Host, is_nil, get_number}
use luminousminer.Stratum.Session.{
  Stratum, StratumType, ethereum_v1, ethereum_v2, ethproxy, text, value, World, M, continue_with,
  cases, ◌>>=◌, ◌>>◌, done, get, session, modify, modify_job,
}
use luminousminer.Stratum.Base.{
  Handlers, id_mining_subscribe, id_mining_authorize, set_boundary, submit_id, worker_text,
  update_job, send_request, base_mining_subscribe, mining_authorize, eth_get_work, do_loop_timeout,
  has_error, on_share, on_authorized, base_on_unknown_method, array_at, text_of, bool_of, number_of,
  double_of, string_or_empty,
}
use luminousminer.Stratum.Protocol.ProgPow.Epoch.{Variant, derive_epoch}
use luminousminer.Stratum.Protocol.ProgPow.Notify.{on_mining_notify}
use luminousminer.Stratum.Protocol.ProgPow.Response.{on_response}

module _ (H : Host) (variant : Variant) where
  open H use {Value, find, as_string, as_bool, as_object}

  pub on_mining_set_difficulty : Value → M Value (Unit {0})
  on_mining_set_difficulty root = do
    params ← array_at H root (codes "params")
    difficulty ← double_of H params 0
    hash ← get (H.double_to_hash difficulty)
    modify_job (set_boundary hash)

  pub on_mining_set_target : Value → M Value (Unit {0})
  on_mining_set_target root = do
    params ← array_at H root (codes "params")
    boundary ← text_of H params 0
    hash ← get (to_hash256 boundary)
    modify_job (set_boundary hash)

  pub on_mining_set_extra_nonce : Value → M Value (Unit {0})
  on_mining_set_extra_nonce root = do
    params ← array_at H root (codes "params")
    extra ← text_of H params 0
    modify_job (set_extra_nonce extra)

  pub set_v2 : Value → M Value (Unit {0})
  set_v2 root = do
    p ← get (find root (codes "params"))
    params ← get (as_object p)
    modify_job (set_extra_nonce (string_or_empty H params (codes "extranonce")))
    e ← get (stoull (string_or_empty H params (codes "epoch")))
    modify_job (λ job. record job { epoch = to_int32 e })
    hash ← get (to_hash256 (string_or_empty H params (codes "target")))
    modify_job (set_boundary hash)

  pub set_by : StratumType → Value → M Value (Unit {0})
  unfolding set_v2
  set_by ethereum_v2 root = set_v2 root
  set_by _ root = done

  pub on_mining_set : Value → M Value (Unit {0})
  unfolding set_by
  on_mining_set root = do s ← session; set_by s.stratum_type root

  -- The text of the header hash in a share.
  abbrev pub header_text : Stratum → Text
  unfolding to_hex
  header_text s = codes "0x" ++ to_hex s.job_info.header_hash

  pub submit_by : StratumType → ℕ → List Value → M Value (Unit {0})
  unfolding header_text
  submit_by ethereum_v1 device_id params = do
    s ← session
    job ← get (get_elem? params 0)
    nonce ← get (get_elem? params 1)
    mix ← get (get_elem? params 2)
    send_request (submit_id device_id) (codes "mining.submit")
        (text (worker_text s) ∷ value job ∷ value nonce ∷ text (header_text s) ∷ value mix ∷ [])
  submit_by ethereum_v2 device_id params = do
    job ← get (get_elem? params 0)
    nonce ← get (get_elem? params 1)
    worker ← get (get_elem? params 2)
    send_request (submit_id device_id) (codes "mining.submit")
        (value job ∷ value nonce ∷ value worker ∷ [])
  submit_by ethproxy device_id params = do
    s ← session
    nonce ← get (get_elem? params 0)
    hash ← get (get_elem? params 1)
    send_request (submit_id device_id) (codes "eth_submitWork")
        (value nonce ∷ text (header_text s) ∷ value hash ∷ [])

  pub mining_submit : ℕ → List Value → M Value (Unit {0})
  unfolding submit_by
  mining_submit device_id params = do s ← session; submit_by s.stratum_type device_id params

  pub handlers : Handlers Value
  handlers = record {
    on_response = on_response H variant;
    on_mining_set = on_mining_set;
    on_mining_notify = on_mining_notify H variant;
    on_mining_set_difficulty = on_mining_set_difficulty;
    on_mining_set_target = on_mining_set_target;
    on_mining_set_extra_nonce = on_mining_set_extra_nonce;
    on_unknown_method = base_on_unknown_method H;
    mining_subscribe = base_mining_subscribe;
  }
