-- ===== src/Stratum/Protocol/ProgPow/Response.antt =====
-- sources/stratum/progpow.cpp: `onResponse` and its three dialects.
use luminousminer.Prelude.{ℕ, true, false, not, ◌&&◌, ◌||◌, some, ltb, ◌==◌, if◌then◌else◌}
use luminousminer.Prelude.Text.{Text, codes, text_eq, is_empty}
use luminousminer.Stratum.ExtraNonce.{set_extra_nonce}
use luminousminer.Stratum.Host.{Host, is_nil, get_number}
use luminousminer.Stratum.Session.{
  StratumType, ethereum_v1, ethereum_v2, ethproxy, M, cases, ◌>>=◌, ◌>>◌, done, get, session,
  modify, modify_job,
}
use luminousminer.Stratum.Base.{
  id_mining_subscribe, id_mining_authorize, mining_authorize, eth_get_work, do_loop_timeout,
  has_error, on_share, on_authorized, array_at, text_of, string_or_empty,
}
use luminousminer.Stratum.Protocol.ProgPow.Epoch.{Variant}
use luminousminer.Stratum.Protocol.ProgPow.Notify.{on_mining_notify}

module _ (H : Host) (variant : Variant) where
  open H use {Value, find, as_string, as_bool, as_object}

  unfoldable pub number_at : Value → Text → M Value ℕ
  number_at root key = do v ← get (find root key); get (get_number H 32 v)

  unfoldable pub response_v1 : Value → M Value (Unit {0})
  response_v1 root = do
    v ← get (find root (codes "id"))
    id ← get (get_number H 32 v)
    if id == id_mining_subscribe
        then (if has_error H root then done else (do
          result ← array_at H root (codes "result")
          if is_nil result then done else (do
            extra ← text_of H result 1
            modify_job (set_extra_nonce extra)
            mining_authorize)))
        else if id == id_mining_authorize
        then on_authorized H root
        else on_share H root id

  -- The reply to `mining.hello`.
  unfoldable pub on_hello : Value → M Value (Unit {0})
  unfolding number_at
  on_hello root = do
    r ← get (find root (codes "result"))
    result ← get (as_object r)
    errors ← number_at result (codes "maxerrors")
    modify (λ s. record s { max_errors = errors })
    resumes ← number_at result (codes "resume")
    modify (λ s. record s { resume = resumes })
    seconds ← number_at result (codes "timeout")
    modify (λ s. record s { timeout = seconds })
    if text_eq (string_or_empty H result (codes "encoding")) (codes "plain")
          && not (is_empty (string_or_empty H result (codes "node")))
          && not (is_empty (string_or_empty H result (codes "proto")))
          && ltb 0 errors
        then mining_authorize
        else done

  unfoldable pub response_v2 : Value → M Value (Unit {0})
  unfolding on_hello
  response_v2 root = do
    v ← get (find root (codes "id"))
    id ← get (get_number H 32 v)
    if id == 1
        then (if has_error H root then done else on_hello root)
        else if id == 2
        then (if has_error H root then modify (λ s. record s { authenticated = false }) else (do
          modify (λ s. record s { worker_id = string_or_empty H root (codes "result") })
          modify (λ s. record s { authenticated = true })
          do_loop_timeout))
        else on_share H root id

  unfoldable pub response_ethproxy : Value → M Value (Unit {0})
  unfolding number_at on_mining_notify
  response_ethproxy root = do
    id ← cases (find root (codes "id")) (get (some 0)) (λ v. get (get_number H 32 v))
    if id == 1
        then (if has_error H root then done else (do
          r ← get (find root (codes "result"))
          accepted ← get (as_bool r)
          modify (λ s. record s { authenticated = accepted })
          eth_get_work))
        else if id == 0 || id == 5
        then on_mining_notify H variant root
        else on_share H root id

  unfoldable pub response_by : StratumType → Value → M Value (Unit {0})
  unfolding response_v1 response_v2 response_ethproxy
  response_by ethereum_v1 root = response_v1 root
  response_by ethereum_v2 root = response_v2 root
  response_by ethproxy root = response_ethproxy root

  unfoldable pub on_response : Value → M Value (Unit {0})
  unfolding response_by
  on_response root = do s ← session; response_by s.stratum_type root
