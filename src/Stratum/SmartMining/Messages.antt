-- ===== src/Stratum/SmartMining/Messages.antt =====
-- sources/stratum/smart_mining.cpp: its handlers, from `onReceive` on.
use luminousminer.Prelude.{
  ℕ, Bool, true, false, not, ◌||◌, List, [], ◌∷◌, Option, none, some, leb, if◌then◌else◌, get_elem?,
}
use luminousminer.Prelude.Optional.{◌>>=◌}
use luminousminer.Prelude.Text.{Text, codes, text_eq, c_str}
use luminousminer.Algo.AlgoType.{
  Algorithm, sha256, ethash, etchash, progpow, progpowquai, progpowz, kawpow, meowpow, firopow,
  evrprogpow, autolykos_v2, to_enum,
}
use luminousminer.Stratum.JobInfo.{JobInfo}
use luminousminer.Stratum.Host.{Host, is_some, get_number}
use luminousminer.Stratum.Session.{StratumType, M}
use luminousminer.Stratum.Base.{Handlers, has_error}
use luminousminer.Stratum.ExtraNonce.{set_extra_nonce, set_extra_nonce2}
use luminousminer.Stratum.Handlers.{handlers_of}
use luminousminer.Stratum.SmartMining.{
  SmartMining, PoolStratum, Answered, sets_algorithm, reports, add, settle, hand_out, new_pool,
}

-- The algorithms of the `switch` of `onSmartMiningSetExtraNonce`: one text, a text and a size, refused.
pub data NonceForm : Type 0 where
  one_text text_and_size refused : NonceForm

unfoldable pub nonce_form : Algorithm → NonceForm
nonce_form sha256 = one_text
nonce_form ethash = one_text
nonce_form etchash = one_text
nonce_form progpow = one_text
nonce_form progpowz = one_text
nonce_form progpowquai = one_text
nonce_form kawpow = one_text
nonce_form meowpow = one_text
nonce_form firopow = one_text
nonce_form evrprogpow = one_text
nonce_form autolykos_v2 = text_and_size
nonce_form _ = refused

abbrev pub change_job : (JobInfo → JobInfo) → PoolStratum → PoolStratum
change_job f p = record p { session = record p.session { job_info = f p.session.job_info } }

module _ {V : Type 0} where
  -- Without a stratum the message is refused before it is read.
  unfoldable pub adopt_nonce :
      Option (Option (JobInfo → JobInfo)) → Option PoolStratum → SmartMining V → Answered V
  adopt_nonce r none s = (some false, s)
  adopt_nonce none (some p) s = (none, s)
  adopt_nonce (some none) (some p) s = (some false, s)
  adopt_nonce (some (some f)) (some p) s =
      (some true, record s { stratum_pool = some (change_job f p) })

  -- A job that the pool's stratum has read without an exception goes out.
  unfoldable pub notified : Option Bool → SmartMining V → Answered V
  notified none s = (none, s)
  notified (some false) s = (some false, s)
  notified (some true) s = hand_out s

module _ (H : Host) (stratum_type : StratumType) where
  open H use {Value, find, as_string, as_bool, as_array, as_object, is_null, parse}

  -- `root.at(key).as_string().c_str()`.
  unfoldable pub text_at : Value → Text → Option Text
  text_at root key = do v ← find root key; t ← as_string v; some (c_str t)

  -- A call of the pool's stratum, of the class that it was made with.
  unfoldable pub call_class :
      (Handlers Value → M Value (Unit {0}))
      → Option (Handlers Value)
      → PoolStratum
      → SmartMining Value
      → Answered Value
  call_class call none p s = (some false, s)
  call_class call (some h) p s =
      let (r, w) = call h (record { stratum = p.session; effects = [] }) in
      (elim r [ none ↦ none | some u ↦ some true ], settle p w s)

  unfoldable pub call_pool :
      (Handlers Value → M Value (Unit {0}))
      → Option PoolStratum
      → SmartMining Value
      → Answered Value
  call_pool call none s = (some false, s)
  call_pool call (some p) s = call_class call (handlers_of H p.class) p s

  -- `IS_NULL(stratumPool)` and the call.
  abbrev pub through : (Handlers Value → M Value (Unit {0})) → SmartMining Value → Answered Value
  through call s = call_pool call s.stratum_pool s

  unfoldable pub adopt_algorithm : Algorithm → SmartMining Value → Answered Value
  adopt_algorithm a s =
      let named = record s { current_algorithm = a } in
      let told = add (sets_algorithm a) named in
      if s.has_set_algorithm
      then (
        some (is_some (new_pool stratum_type a)),
        record told { stratum_pool = new_pool stratum_type a },
      )
      else (none, named)

  unfoldable pub on_smart_mining_set_algo : Value → SmartMining Value → Answered Value
  on_smart_mining_set_algo root s = elim (text_at root (codes "params")) [
    | none ↦ (none, s)
    | some name ↦ adopt_algorithm (to_enum name) s
  ]

  -- What the message says of the job; the outer `none` is an exception, the inner one a refusal.
  unfoldable pub read_extra_nonce : Algorithm → Value → Option (Option (JobInfo → JobInfo))
  read_extra_nonce a root = elim (nonce_form a) [
    | one_text ↦ (do t ← text_at root (codes "params"); some (some (set_extra_nonce t)))
    | text_and_size ↦ (do
      v ← find root (codes "params")
      params ← as_array v
      first ← get_elem? params 0
      t ← as_string first
      second ← get_elem? params 1
      size ← get_number H 32 second
      some (some (set_extra_nonce2 (c_str t) size)))
    | refused ↦ some none
  ]

  unfoldable pub on_smart_mining_set_extra_nonce : Value → SmartMining Value → Answered Value
  on_smart_mining_set_extra_nonce root s =
      adopt_nonce (read_extra_nonce s.current_algorithm root) s.stratum_pool s

  unfoldable pub on_mining_notify : Value → SmartMining Value → Answered Value
  on_mining_notify root s =
      let (r, next) = through (λ h. h.on_mining_notify root) s in notified r next

  unfoldable pub on_mining_set_difficulty : Value → SmartMining Value → Answered Value
  on_mining_set_difficulty root s = through (λ h. h.on_mining_set_difficulty root) s

  unfoldable pub on_mining_set_target : Value → SmartMining Value → Answered Value
  on_mining_set_target root s = through (λ h. h.on_mining_set_target root) s

  unfoldable pub on_method : Value → SmartMining Value → Answered Value
  on_method root s = elim (text_at root (codes "method")) [
    | none ↦ (none, s)
    | some method ↦
        if text_eq method (codes "smart_mining.set_algo")
        then on_smart_mining_set_algo root s
        else if text_eq method (codes "smart_mining.set_extra_nonce")
        then on_smart_mining_set_extra_nonce root s
        else if text_eq method (codes "mining.notify")
        then on_mining_notify root s
        else if text_eq method (codes "mining.set_difficulty")
        then on_mining_set_difficulty root s
        else if text_eq method (codes "mining.set_target")
        then on_mining_set_target root s
        else (some false, s)
  ]

  -- `isErrResult`; the result has to be a Boolean where it is not null.
  unfoldable pub result_refused : Value → Option Bool
  result_refused root = elim (find root (codes "result")) [
    | none ↦ some true
    | some r ↦ if is_null r then some true else (do b ← as_bool r; some (not b))
  ]

  unfoldable pub report : Bool → ℕ → SmartMining Value → SmartMining Value
  report valid id s = if s.has_share_status then add (reports valid id 0) s else s

  unfoldable pub request_id : Value → Option ℕ
  request_id root = do v ← find root (codes "id"); get_number H 32 v

  unfoldable pub on_response : Value → SmartMining Value → Answered Value
  on_response root s = elim (request_id root) [
    | none ↦ (none, s)
    | some id ↦ if leb id 2 then (some true, s) else elim (result_refused root) [
      | none ↦ (none, s)
      | some bad ↦ (some true, report (not (bad || has_error H root)) id s)
    ]
  ]

  unfoldable pub read_object : Text → Option Value
  read_object message = do v ← parse message; as_object v

  unfoldable pub handle : Value → SmartMining Value → Answered Value
  handle root s =
      if is_some (find root (codes "method")) then on_method root s else on_response root s

  unfoldable pub on_receive : Text → SmartMining Value → SmartMining Value
  on_receive message s =
      (elim (read_object message) as (λ x. Answered Value) [
        | none ↦ (none, s)
        | some root ↦ handle root s
      ]).1

  unfoldable pub receive_all : List Text → SmartMining Value → SmartMining Value
  receive_all [] s = s
  receive_all (m ∷ ms) s = receive_all ms (on_receive m s)
