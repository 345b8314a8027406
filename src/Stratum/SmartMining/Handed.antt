-- ===== src/Stratum/SmartMining/Handed.antt =====
-- Which jobs a client of smart mining hands out, whatever messages come.
use luminousminer.Prelude.{
  ℕ, ◌≡◌, refl, sym, ap, ◌⊎◌, Bool, true, false, List, [], ◌∷◌, Option, none, some, inl, inr, subst,
  Bool-cases, if◌then◌else◌, leb,
}
use luminousminer.Prelude.Text.{Text, codes, text_eq}
use luminousminer.Algo.AlgoType.{Algorithm, to_enum}
use luminousminer.Stratum.JobInfo.{JobInfo}
use luminousminer.Stratum.Host.{Host, is_some}
use luminousminer.Stratum.Session.{StratumType, Effect, M}
use luminousminer.Stratum.Base.{Handlers}
use luminousminer.Stratum.Handlers.{handlers_of}
use luminousminer.Stratum.SmartMining.{
  Outcome, sets_algorithm, hands_out, reports, sends, from_pool, PoolStratum, SmartMining, pass_on,
  Answered, hand_pool,
}
use luminousminer.Stratum.SmartMining.Messages.{
  request_id, result_refused, handle, read_object, text_at, adopt_nonce, notified, call_class,
  call_pool, adopt_algorithm, on_smart_mining_set_algo, on_smart_mining_set_extra_nonce,
  on_mining_notify, on_mining_set_difficulty, on_mining_set_target, on_method, report, on_response,
  on_receive, receive_all,
}
use luminousminer.Stratum.SmartMining.Trace.{
  latest, IsInOrder, IsPoolOf, IsSmart, on_receive-IsSmart, receive_all-IsSmart,
}

-- The jobs that were handed out, the newest first.
abbrev pub handed : {V : Type 0} → List (Outcome V) → List JobInfo
handed [] = []
handed (sets_algorithm a ∷ os) = handed os
handed (hands_out job ∷ os) = job ∷ handed os
handed (reports valid id uuid ∷ os) = handed os
handed (sends r ∷ os) = handed os
handed (from_pool e ∷ os) = handed os

pass_on-handed :
    {V : Type 0} (es : List (Effect V)) (os : List (Outcome V)) → handed (pass_on es os) ≡ handed os
pass_on-handed [] os = refl
pass_on-handed (e ∷ es) os = pass_on-handed es (from_pool e ∷ os)

-- After the jobs `js`, nothing more was handed out, or the job of the stratum that the client holds.
abbrev IsOwnJob : {V : Type 0} → List JobInfo → SmartMining V → Type 0
IsOwnJob js s =
    (handed s.outcomes ≡ js)
    ⊎ ((p : PoolStratum) × (s.stratum_pool ≡ some p)
        × (handed s.outcomes ≡ p.session.job_info ∷ js))

-- The same, with the stratum made for the algorithm that was announced last.
abbrev pub IsServedJob : {V : Type 0} → List JobInfo → SmartMining V → Type 0
IsServedJob js s =
    (handed s.outcomes ≡ js)
    ⊎ ((p : PoolStratum) × (s.stratum_pool ≡ some p)
        × (latest s.outcomes ≡ some p.class)
        × (handed s.outcomes ≡ p.session.job_info ∷ js))

module _ (H : Host) (stratum_type : StratumType) where
  open H use {Value}

  if-IsOwnJob :
      (js : List JobInfo) (b : Bool) (x y : Answered Value)
      → IsOwnJob js x.1
      → IsOwnJob js y.1
      → IsOwnJob js (if b then x else y).1
  if-IsOwnJob js true x y h k = h
  if-IsOwnJob js false x y h k = k

  read-IsOwnJob :
      {A : Type 0} (js : List JobInfo) (o : Option A) (s : SmartMining Value)
      (f : A → Answered Value)
      → IsOwnJob js s
      → ((a : A) → IsOwnJob js (f a).1)
      → IsOwnJob js (elim o as (λ x. Answered Value) [ none ↦ (none, s) | some a ↦ f a ]).1
  read-IsOwnJob js none s f h k = h
  read-IsOwnJob js (some a) s f h k = k a

  module _ (call : Handlers Value → M Value (Unit {0})) where
    call_class-handed :
        (o : Option (Handlers Value)) (p : PoolStratum) (s : SmartMining Value)
        → handed (call_class H stratum_type call o p s).1.outcomes ≡ handed s.outcomes
    unfolding call_class
    call_class-handed none p s = refl
    call_class-handed (some c) p s =
        pass_on-handed (call c (record { stratum = p.session; effects = [] })).1.effects s.outcomes

    call_pool-handed :
        (o : Option PoolStratum) (s : SmartMining Value)
        → handed (call_pool H stratum_type call o s).1.outcomes ≡ handed s.outcomes
    unfolding call_pool
    call_pool-handed none s = refl
    call_pool-handed (some p) s = call_class-handed (handlers_of H p.class) p s

  hand_pool-IsOwnJob :
      (js : List JobInfo) (o : Option PoolStratum) (s : SmartMining Value)
      → s.stratum_pool ≡ o
      → handed s.outcomes ≡ js
      → IsOwnJob js (hand_pool o s).1
  unfolding hand_pool
  hand_pool-IsOwnJob js none s e h = inl h
  hand_pool-IsOwnJob js (some p) s e h = elim (Bool-cases s.has_update_job) [
    | inl on ↦ rw on (inr (p, e, ap (λ t. p.session.job_info ∷ t) h))
    | inr off ↦ rw off (inl h)
  ]

  notified-IsOwnJob :
      (js : List JobInfo) (r : Option Bool) (s : SmartMining Value)
      → handed s.outcomes ≡ js
      → IsOwnJob js (notified r s).1
  unfolding notified
  notified-IsOwnJob js none s h = inl h
  notified-IsOwnJob js (some false) s h = inl h
  notified-IsOwnJob js (some true) s h = hand_pool-IsOwnJob js s.stratum_pool s refl h

  adopt-handed :
      (a : Algorithm) (s : SmartMining Value)
      → handed (adopt_algorithm H stratum_type a s).1.outcomes ≡ handed s.outcomes
  unfolding adopt_algorithm
  adopt-handed a s = elim (Bool-cases s.has_set_algorithm) [
    | inl on ↦ rw on refl
    | inr off ↦ rw off refl
  ]

  adopt_nonce-handed :
      (r : Option (Option (JobInfo → JobInfo))) (o : Option PoolStratum) (s : SmartMining Value)
      → handed (adopt_nonce r o s).1.outcomes ≡ handed s.outcomes
  unfolding adopt_nonce
  adopt_nonce-handed r none s = refl
  adopt_nonce-handed none (some p) s = refl
  adopt_nonce-handed (some none) (some p) s = refl
  adopt_nonce-handed (some (some f)) (some p) s = refl

  report-handed :
      (valid : Bool) (id : ℕ) (s : SmartMining Value)
      → handed (report H stratum_type valid id s).outcomes ≡ handed s.outcomes
  unfolding report
  report-handed valid id s = elim (Bool-cases s.has_share_status) [
    | inl on ↦ rw on refl
    | inr off ↦ rw off refl
  ]

  on_method-IsOwnJob :
      (root : Value) (s : SmartMining Value)
      → IsOwnJob (handed s.outcomes) (on_method H stratum_type root s).1
  unfolding on_method on_smart_mining_set_algo on_smart_mining_set_extra_nonce on_mining_notify
      on_mining_set_difficulty on_mining_set_target
  on_method-IsOwnJob root s =
      let js = handed s.outcomes in
      read-IsOwnJob js (text_at H stratum_type root (codes "method")) s _ (inl refl) λ name.
        (if-IsOwnJob js (text_eq name (codes "smart_mining.set_algo")) _ _
          (read-IsOwnJob js (text_at H stratum_type root (codes "params")) s _ (inl refl)
            (λ t. inl (adopt-handed (to_enum t) s)))
          (if-IsOwnJob js (text_eq name (codes "smart_mining.set_extra_nonce")) _ _
            (inl (adopt_nonce-handed _ s.stratum_pool s))
            (if-IsOwnJob js (text_eq name (codes "mining.notify")) _ _
              (notified-IsOwnJob js _ _
                (call_pool-handed (λ c. c.on_mining_notify root) s.stratum_pool s))
              (if-IsOwnJob js (text_eq name (codes "mining.set_difficulty")) _ _
                (inl (call_pool-handed (λ c. c.on_mining_set_difficulty root) s.stratum_pool s))
                (if-IsOwnJob js (text_eq name (codes "mining.set_target")) _ _
                  (inl (call_pool-handed (λ c. c.on_mining_set_target root) s.stratum_pool s))
                  (inl refl))))))

  on_response-handed :
      (root : Value) (s : SmartMining Value)
      → IsOwnJob (handed s.outcomes) (on_response H stratum_type root s).1
  unfolding on_response
  on_response-handed root s =
      let js = handed s.outcomes in
      read-IsOwnJob js (request_id H stratum_type root) s _ (inl refl) λ id.
        if-IsOwnJob js (leb id 2) (some true, s) _ (inl refl)
          (read-IsOwnJob js (result_refused H stratum_type root) s _ (inl refl)
            (λ bad. inl (report-handed _ id s)))

  on_receive-IsOwnJob :
      (message : Text) (s : SmartMining Value)
      → IsOwnJob (handed s.outcomes) (on_receive H stratum_type message s)
  unfolding on_receive handle
  on_receive-IsOwnJob message s =
      let js = handed s.outcomes in
      read-IsOwnJob js (read_object H stratum_type message) s _ (inl refl) λ root.
        if-IsOwnJob js (is_some (H.find root (codes "method"))) _ _ (on_method-IsOwnJob root s)
          (on_response-handed root s)

  own-served :
      (js : List JobInfo) (s : SmartMining Value)
      → IsSmart H stratum_type s
      → IsOwnJob js s
      → IsServedJob js s
  own-served js s h (inl none_more) = inl none_more
  own-served js s h (inr (p, held, more)) =
      let of_pool = subst (λ o. IsPoolOf H stratum_type o (latest s.outcomes)) held h.1 in
      inr (p, held, of_pool.0, more)

-- From a client without a stratum on, whatever messages came before: a message makes the client hand out
-- at most one job, and that is the job of the stratum that it then holds, which was made for the algorithm
-- announced to the devices last. Over all messages, each job is handed out under an algorithm that was
-- announced before it, and not replaced since, and for which there is a stratum; only replies to requests
-- above 2 are reported, for the pool 0; and the stratum that the client holds hands out no job and reports
-- no reply on its own.
pub receive_all-IsInOrder :
    (H : Host) (stratum_type : StratumType) (messages : List Text) (message : Text)
    (s : SmartMining H.Value)
    → s.stratum_pool ≡ none
    → s.outcomes ≡ []
    → IsServedJob
        (handed (receive_all H stratum_type messages s).outcomes)
        (on_receive H stratum_type message (receive_all H stratum_type messages s))
      × IsInOrder H
          (on_receive H stratum_type message (receive_all H stratum_type messages s)).outcomes
receive_all-IsInOrder H stratum_type messages message s no_pool empty =
    let before = receive_all H stratum_type messages s in
    let in_order = on_receive-IsSmart H stratum_type message before (
      receive_all-IsSmart H stratum_type messages s (
        subst (IsInOrder H) (sym empty) tt,
        subst (λ o. IsPoolOf H stratum_type o (latest s.outcomes)) (sym no_pool) tt,
      )) in
    (
      own-served H stratum_type (handed before.outcomes) (on_receive H stratum_type message before)
          in_order (on_receive-IsOwnJob H stratum_type message before),
      in_order.0,
    )
