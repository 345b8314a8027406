-- ===== src/Stratum/Stable.antt =====
-- What the handlers of sources/stratum keep, whatever a pool sends. A property of the world that
-- survives each way in which the handlers change it survives every handler of every protocol.
use luminousminer.Prelude.{ℕ, Bool, List, [], ◌∷◌}
use luminousminer.Prelude.Text.{Text}
use luminousminer.Algo.Epoch.{EpochCache}
use luminousminer.Stratum.JobInfo.{JobInfo}
use luminousminer.Stratum.Host.{Host}
use luminousminer.Stratum.Session.{
  StratumType, ethereum_v1, ethereum_v2, ethproxy, World, modify, modify_job,
}
use luminousminer.Stratum.Session.Keeps.{Keeps, keeps_rules}
use luminousminer.Stratum.Base.{
  Handlers, update_job, mining_authorize, report_share, result_error, bool_result_error,
  status_result_error, on_share, on_method, handle_message, on_receive, base_on_unknown_method,
  on_authorized,
}

pub record IsStable {V : Type 0} (P : World V → Type 0) : Type 0 where
  pub job : (f : JobInfo → JobInfo) → Keeps P (modify_job f)
  pub authenticated : (b : Bool) → Keeps P (modify (λ s. record s { authenticated = b }))
  pub cache : (c : EpochCache) → Keeps P (modify (λ s. record s { epoch_cache = c }))
  pub named : (id : Text) → Keeps P (modify (λ s. record s { session_id = id }))
  pub second_size : (n : ℕ) → Keeps P (modify (λ s. record s { extra_nonce2_size = n }))
  pub authorize : Keeps P mining_authorize
  pub report : (valid : Bool) (request_id : ℕ) → Keeps P (report_share valid request_id)
  pub dispatch : Keeps P update_job

-- What the replies to requests change and let out.
pub record KeepsReplies {V : Type 0} (P : World V → Type 0) : Type 0 where
  pub authenticated : (b : Bool) → Keeps P (modify (λ s. record s { authenticated = b }))
  pub report : (valid : Bool) (request_id : ℕ) → Keeps P (report_share valid request_id)

-- Each handler of a protocol keeps the property.
pub record KeepsAll {V : Type 0} (P : World V → Type 0) (h : Handlers V) : Type 0 where
  pub response : (v : V) → Keeps P (h.on_response v)
  pub mining_set : (v : V) → Keeps P (h.on_mining_set v)
  pub notify : (v : V) → Keeps P (h.on_mining_notify v)
  pub difficulty : (v : V) → Keeps P (h.on_mining_set_difficulty v)
  pub target : (v : V) → Keeps P (h.on_mining_set_target v)
  pub extra_nonce : (v : V) → Keeps P (h.on_mining_set_extra_nonce v)
  pub unknown : (v : V) → Keeps P (h.on_unknown_method v)

module _ {V : Type 0} (P : World V → Type 0) (stable : IsStable P) where
  pub update_job-Keeps : Keeps P update_job
  update_job-Keeps = stable.dispatch

  pub mining_authorize-Keeps : Keeps P mining_authorize
  mining_authorize-Keeps = stable.authorize

module _ (H : Host) where
  open H use {Value}

  -- The messages of a pool, one after the other.
  unfoldable pub receive_all : Handlers Value → List Text → World Value → World Value
  receive_all h [] w = w
  receive_all h (m ∷ ms) w = receive_all h ms (on_receive H h m w)

module _ (H : Host) (P : World H.Value → Type 0) where
  open H use {Value}

  bool_result_error-Keeps : (root : Value) → Keeps P (bool_result_error H root)
  unfolding bool_result_error
  bool_result_error-Keeps root = search keeps_rules

  status_result_error-Keeps : (root : Value) → Keeps P (status_result_error H root)
  unfolding status_result_error
  status_result_error-Keeps root = search keeps_rules

  result_error-Keeps : (t : StratumType) (root : Value) → Keeps P (result_error H t root)
  result_error-Keeps ethereum_v1 root = bool_result_error-Keeps root
  result_error-Keeps ethereum_v2 root = bool_result_error-Keeps root
  result_error-Keeps ethproxy root = status_result_error-Keeps root

  pub base_on_unknown_method-Keeps : (root : Value) → Keeps P (base_on_unknown_method H root)
  unfolding base_on_unknown_method
  base_on_unknown_method-Keeps root = search keeps_rules

  on_method-Keeps :
      (h : Handlers Value) (all : KeepsAll P h) (root : Value) → Keeps P (on_method H h root)
  unfolding on_method
  on_method-Keeps h all root =
      search
        (
          keeps_rules, all.mining_set, all.notify, all.difficulty, all.target, all.extra_nonce,
          all.unknown,
        )
        depth 14

  handle_message-Keeps :
      (h : Handlers Value) (all : KeepsAll P h) (message : Text)
      → Keeps P (handle_message H h message)
  unfolding handle_message
  handle_message-Keeps h all message = search (keeps_rules, on_method-Keeps h all, all.response)

  pub receive_all-keeps :
      (h : Handlers Value) (all : KeepsAll P h) (messages : List Text) (w : World Value)
      → P w
      → P (receive_all H h messages w)
  unfolding on_receive receive_all
  receive_all-keeps h all [] w s = s
  receive_all-keeps h all (m ∷ ms) w s =
      receive_all-keeps h all ms (on_receive H h m w) ((handle_message-Keeps h all m).at w s)

module _ (H : Host) (P : World H.Value → Type 0) (replies : KeepsReplies P) where
  open H use {Value}

  pub share-Keeps : (root : Value) (id : ℕ) → Keeps P (on_share H root id)
  unfolding on_share
  share-Keeps root id = search (keeps_rules, result_error-Keeps H P, replies.report)

  pub authorized-Keeps : (root : Value) → Keeps P (on_authorized H root)
  unfolding on_authorized
  authorized-Keeps root = search (keeps_rules, replies.authenticated)

module _ (H : Host) (P : World H.Value → Type 0) (stable : IsStable P) where
  open H use {Value}

  replies : KeepsReplies P
  replies = record { authenticated = stable.authenticated; report = stable.report }

  pub on_share-Keeps : (root : Value) (id : ℕ) → Keeps P (on_share H root id)
  on_share-Keeps = share-Keeps H P replies

  pub on_authorized-Keeps : (root : Value) → Keeps P (on_authorized H root)
  on_authorized-Keeps = authorized-Keeps H P replies
