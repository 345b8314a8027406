-- ===== src/Stratum/Base.antt =====
-- sources/stratum/stratum.cpp: what all protocols share. Virtual functions are the fields of
-- `Handlers`; a protocol gives its own. Logging and the bodies of the sleeping loops
-- `loopTimeout` and `loopGetWork` are not modelled; the start of the first is an effect.
use luminousminer.Prelude.{
  ℕ, ◌+◌, ◌*◌, Bool, true, false, not, ◌&&◌, ◌||◌, List, [], ◌∷◌, ◌++◌, none, some, ltb, ◌==◌,
  if◌then◌else◌, get_elem?,
}
use luminousminer.Prelude.Word.{u32}
use luminousminer.Prelude.Text.{Text, codes, text_eq, is_empty, c_str}
use luminousminer.Algo.HashUtils.{is_hash_empty, to_uint64}
use luminousminer.Stratum.JobInfo.{Hash, JobInfo}
use luminousminer.Stratum.Host.{Host, is_some, get_number, get_double}
use luminousminer.Stratum.Session.{
  Stratum, StratumType, ethereum_v1, ethereum_v2, ethproxy, Param, text, named_text, named_number,
  sent, dispatched, share_status, loop_timeout, World, M, cases, ◌>>=◌, done, get, session, modify,
  emit,
}

abbrev pub overcom_nonce : ℕ
overcom_nonce = 1000

abbrev pub id_mining_subscribe : ℕ
id_mining_subscribe = 1

abbrev pub id_mining_authorize : ℕ
id_mining_authorize = 2

-- The fields of `Config::mining` that the base class reads.
pub record MiningSettings : Type 0 where
  pub wallet : Text
  pub password : Text
  pub worker_name : Text

pub record Handlers (V : Type 0) : Type 0 where
  pub on_response : V → M V (Unit {0})
  pub on_mining_set : V → M V (Unit {0})
  pub on_mining_notify : V → M V (Unit {0})
  pub on_mining_set_difficulty : V → M V (Unit {0})
  pub on_mining_set_target : V → M V (Unit {0})
  pub on_mining_set_extra_nonce : V → M V (Unit {0})
  pub on_unknown_method : V → M V (Unit {0})
  pub mining_subscribe : M V (Unit {0})

unfoldable pub is_valid_job : JobInfo → Bool
is_valid_job job =
    not (is_hash_empty job.job_id)
    && not (is_hash_empty job.header_hash && is_hash_empty job.header_blob)
    && not (is_hash_empty job.boundary)
    && not (job.boundary_u64 == 0)
    && not (job.nonce == 0)

abbrev pub software_name : Text
software_name = codes "luminousminer/0.12"

abbrev pub worker_text : Stratum → Text
worker_text s = s.wallet ++ codes "." ++ s.worker_name

module _ {V : Type 0} where
  -- `updateJob`: an invalid job goes nowhere, and no callback means no dispatch.
  unfoldable pub update_job : M V (Unit {0})
  update_job = do
    s ← session
    if is_valid_job s.job_info && s.dispatches then emit (dispatched s.uuid s.job_info) else done

  unfoldable pub send_request : ℕ → Text → List (Param V) → M V (Unit {0})
  send_request id method params =
      emit (sent (record { id = id; method = method; worker = none; params = params }))

  unfoldable pub mining_hello : M V (Unit {0})
  unfolding send_request
  mining_hello = do
    s ← session
    send_request id_mining_subscribe (codes "mining.hello") (
        named_text (codes "agent") software_name
        ∷ named_text (codes "host") s.host
        ∷ named_number (codes "port") s.port
        ∷ named_text (codes "proto") s.protocol
        ∷ [])

  unfoldable pub base_mining_subscribe : M V (Unit {0})
  unfolding send_request
  base_mining_subscribe = do
    s ← session
    send_request id_mining_subscribe (codes "mining.subscribe")
        (elim s.stratum_type [ ethereum_v1 ↦ text software_name ∷ text s.protocol ∷ [] | _ ↦ [] ])

  unfoldable pub mining_authorize : M V (Unit {0})
  unfolding send_request
  mining_authorize = do
    s ← session
    send_request id_mining_authorize (codes "mining.authorize")
        (text (worker_text s) ∷ text s.password ∷ [])

  -- `castU32(ETHPROXY_ID::GETWORK)` is 5.
  unfoldable pub eth_get_work : M V (Unit {0})
  unfolding send_request
  eth_get_work = send_request 5 (codes "eth_getWork") []

  unfoldable pub do_loop_timeout : M V (Unit {0})
  do_loop_timeout = do s ← session; emit (loop_timeout s.timeout)

  -- The call of `shareStatus` in `onShare`.
  unfoldable pub report_share : Bool → ℕ → M V (Unit {0})
  report_share valid request_id = do
    s ← session
    if s.reports then emit (share_status valid request_id s.uuid) else done

  -- `castU32(ETHPROXY_ID::SUBMITLOGIN)` is 1.
  unfoldable pub eth_submit_login : MiningSettings → M V (Unit {0})
  eth_submit_login config = emit (
      sent (record {
        id = 1;
        method = codes "eth_submitLogin";
        worker = some config.worker_name;
        params = text config.wallet ∷ text config.password ∷ [];
      }))

  unfoldable pub on_connect : Handlers V → MiningSettings → M V (Unit {0})
  on_connect h config = if is_empty config.wallet || is_empty config.password then done else do
    s ← session
    elim s.stratum_type [
      | ethereum_v1 ↦ h.mining_subscribe
      | ethereum_v2 ↦ mining_hello
      | ethproxy ↦ eth_submit_login config
    ]

-- `boundary` and `boundaryU64`, which is raised to the target bits where it lies below them.
unfoldable pub set_boundary : Hash → JobInfo → JobInfo
set_boundary hash job =
    let value = to_uint64 hash in
    record job {
      boundary = hash;
      boundary_u64 = if ltb value job.target_bits then job.target_bits else value;
    }

-- `id` of a submitted share.
abbrev pub submit_id : ℕ → ℕ
submit_id device_id = u32 (u32 (device_id + 1) * overcom_nonce)

module _ (H : Host) where
  open H use {Value, find, as_string, as_bool, as_array, as_object, is_null, parse}

  abbrev pub contains : Value → Text → Bool
  contains root key = is_some (find root key)

  -- `"error"` is present and not null.
  abbrev pub has_error : Value → Bool
  has_error root = elim (find root (codes "error")) [ none ↦ false | some e ↦ not (is_null e) ]

  -- `isErrResult` of the protocols with a boolean result.
  unfoldable pub bool_result_error : Value → M Value Bool
  bool_result_error root =
      cases (find root (codes "result")) (get (some true))
        λ r. if is_null r then get (some true) else (do b ← get (as_bool r); get (some (not b)))

  -- `isErrResult` of ETHPROXY: the result is an object whose status is not "OK".
  unfoldable pub status_result_error : Value → M Value Bool
  status_result_error root = cases (find root (codes "result")) (get (some true)) λ r.
      if is_null r || not (is_some (as_object r)) then get (some true) else (do
        status ← get (find r (codes "status"))
        name ← get (as_string status)
        get (some (not (text_eq (c_str name) (codes "OK")))))

  abbrev pub result_error : StratumType → Value → M Value Bool
  result_error ethereum_v1 root = bool_result_error root
  result_error ethereum_v2 root = bool_result_error root
  result_error ethproxy root = status_result_error root

  unfoldable pub on_share : Value → ℕ → M Value (Unit {0})
  unfolding bool_result_error status_result_error report_share
  on_share root request_id = do
    s ← session
    bad_result ← result_error s.stratum_type root
    report_share (not (bad_result || has_error root)) request_id

  -- The text under a key, as a C string.
  abbrev pub text_at : Value → Text → M Value Text
  text_at root key = do v ← get (find root key); s ← get (as_string v); get (some (c_str s))

  abbrev pub array_at : Value → Text → M Value (List Value)
  array_at root key = do v ← get (find root key); get (as_array v)

  unfoldable pub on_method : Handlers Value → Value → M Value (Unit {0})
  on_method h root = do
    method ← text_at root (codes "method")
    if text_eq method (codes "mining.set")
        then h.on_mining_set root
        else if text_eq method (codes "mining.notify")
        then h.on_mining_notify root
        else if text_eq method (codes "mining.set_difficulty")
        then h.on_mining_set_difficulty root
        else if text_eq method (codes "mining.set_target")
        then h.on_mining_set_target root
        else if text_eq method (codes "mining.set_extranonce")
        then h.on_mining_set_extra_nonce root
        else if text_eq method (codes "client.show_message")
        then (do params ← array_at root (codes "params"); done)
        else h.on_unknown_method root

  -- `onUnknownMethod` of the base class reads the method's name for the log.
  unfoldable pub base_on_unknown_method : Value → M Value (Unit {0})
  base_on_unknown_method root = do method ← text_at root (codes "method"); done

  -- The handlers that the base class leaves unimplemented.
  abbrev pub unimplemented : Value → M Value (Unit {0})
  unimplemented root = done

  -- The body of the `try` block of `onReceive`.
  unfoldable pub handle_message : Handlers Value → Text → M Value (Unit {0})
  unfolding on_method
  handle_message h message = do
    v ← get (parse message)
    root ← get (as_object v)
    if contains root (codes "method") then on_method h root else h.on_response root

  -- `onReceive` catches every exception of a handler and keeps what it did so far.
  unfoldable pub on_receive : Handlers Value → Text → World Value → World Value
  unfolding handle_message
  on_receive h message w = (handle_message h message w).1

  -- The element of an array at an index, as a C string.
  abbrev pub text_of : List Value → ℕ → M Value Text
  text_of params i = do v ← get (get_elem? params i); s ← get (as_string v); get (some (c_str s))

  abbrev pub bool_of : List Value → ℕ → M Value Bool
  bool_of params i = do v ← get (get_elem? params i); get (as_bool v)

  abbrev pub number_of : ℕ → List Value → ℕ → M Value ℕ
  number_of width params i = do v ← get (get_elem? params i); get (get_number H width v)

  abbrev pub double_of : List Value → ℕ → M Value H.Double
  double_of params i = do v ← get (get_elem? params i); get (get_double H v)

  -- `boostGetString` of an object: the empty text where the key is missing or no text.
  abbrev pub string_or_empty : Value → Text → Text
  string_or_empty root key = elim (find root key) [
    | none ↦ []
    | some v ↦ elim (as_string v) [ none ↦ [] | some s ↦ c_str s ]
  ]

  -- The reply to `mining.authorize` that several protocols share.
  unfoldable pub on_authorized : Value → M Value (Unit {0})
  on_authorized root = if has_error root then done else do
    r ← get (find root (codes "result"))
    accepted ← get (as_bool r)
    modify (λ s. record s { authenticated = accepted })
