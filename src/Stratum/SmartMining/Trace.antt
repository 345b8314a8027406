-- ===== src/Stratum/SmartMining/Trace.antt =====
-- What a client of smart mining lets out, whatever messages come.
use luminousminer.Prelude.{
  ℕ, ◌≡◌, ◌<◌, refl, ap, ◌∙◌, Bool, true, false, List, [], ◌∷◌, Option, none, some, inl, inr, subst,
  Bool-cases, if◌then◌else◌, leb, arith,
}
use luminousminer.Prelude.Text.{Text, codes, text_eq}
use luminousminer.Algo.AlgoType.{Algorithm, unknown, to_enum}
use luminousminer.Stratum.JobInfo.{JobInfo}
use luminousminer.Stratum.Host.{Host, is_some}
use luminousminer.Stratum.Session.{Stratum, StratumType, Effect, World, M}
use luminousminer.Stratum.Session.Keeps.{Keeps}
use luminousminer.Stratum.Base.{Handlers}
use luminousminer.Stratum.Stable.{KeepsAll}
use luminousminer.Stratum.Received.{
  IsSession, IsSession-IsStable, is_quiet, AllQuiet, IsSession-AllQuiet, IsSession-restart,
  IsSession-fresh,
}
use luminousminer.Stratum.Handlers.{asks_for_work, handlers_of}
use luminousminer.Stratum.NewStratum.{fresh_stratum, new_stratum}
use luminousminer.Stratum.Pool.{IsKept, handlers_of-IsKept}
use luminousminer.Stratum.SmartMining.{
  Outcome, sets_algorithm, hands_out, reports, sends, from_pool, PoolStratum, SmartMining, pass_on,
  Answered, hand_pool, new_pool,
}
use luminousminer.Stratum.SmartMining.Messages.{
  request_id, result_refused, handle, read_object, text_at, adopt_nonce, notified, through,
  call_class, call_pool, adopt_algorithm, on_smart_mining_set_algo, change_job,
  on_smart_mining_set_extra_nonce, on_mining_notify, on_mining_set_difficulty, on_mining_set_target,
  on_method, report, on_response, on_receive, receive_all,
}

-- The algorithm that was announced last.
abbrev pub latest : {V : Type 0} → List (Outcome V) → Option Algorithm
latest [] = none
latest (sets_algorithm a ∷ os) = some a
latest (hands_out job ∷ os) = latest os
latest (reports valid id uuid ∷ os) = latest os
latest (sends r ∷ os) = latest os
latest (from_pool e ∷ os) = latest os

module _ (H : Host) where
  open H use {Value}

  -- An algorithm was announced, and a stratum is made for it.
  abbrev pub is_served : Option Algorithm → Bool
  is_served none = false
  is_served (some a) = is_some (handlers_of H a)

  -- A job is handed out under an algorithm that was announced before it and is served; only replies
  -- to shares are reported; the pool's stratum hands out and reports nothing on its own.
  abbrev pub IsInOrder : List (Outcome Value) → Type 0
  IsInOrder [] = Unit {0}
  IsInOrder (sets_algorithm a ∷ os) = IsInOrder os
  IsInOrder (hands_out job ∷ os) = (is_served (latest os) ≡ true) × IsInOrder os
  IsInOrder (reports valid id uuid ∷ os) = (2 < id) × (uuid ≡ 0) × IsInOrder os
  IsInOrder (sends r ∷ os) = IsInOrder os
  IsInOrder (from_pool e ∷ os) = (is_quiet e ≡ true) × IsInOrder os

  pass_on-IsInOrder :
      (es : List (Effect Value)) (os : List (Outcome Value))
      → AllQuiet es
      → IsInOrder os
      → IsInOrder (pass_on es os) × (latest (pass_on es os) ≡ latest os)
  pass_on-IsInOrder [] os q h = (h, refl)
  pass_on-IsInOrder (e ∷ es) os q h = pass_on-IsInOrder es (from_pool e ∷ os) q.1 (q.0, h)

  module _ (stratum_type : StratumType) where
    abbrev pub fresh : Algorithm → Stratum
    fresh a = fresh_stratum stratum_type a

    -- The stratum in use is that of the algorithm announced last, and is in order.
    abbrev pub IsPoolOf : Option PoolStratum → Option Algorithm → Type 0
    IsPoolOf none last = Unit {0}
    IsPoolOf (some p) last =
        (last ≡ some p.class)
        × (is_some (handlers_of H p.class) ≡ true)
        × IsSession {V = Value} (asks_for_work p.class) (fresh p.class)
            (record { stratum = p.session; effects = [] })

    abbrev pub IsSmart : SmartMining Value → Type 0
    IsSmart s = IsInOrder s.outcomes × IsPoolOf s.stratum_pool (latest s.outcomes)

    module _ (call : Handlers Value → M Value (Unit {0})) where
      -- The call keeps every session of its class in order.
      abbrev IsKeeping : Type 0
      IsKeeping =
          (a : Algorithm) (h : Handlers Value)
          → KeepsAll (IsSession (asks_for_work a) (fresh a)) h
          → Keeps (IsSession (asks_for_work a) (fresh a)) (call h)

      call_class-IsSmart :
          (o : Option (Handlers Value)) (p : PoolStratum) (s : SmartMining Value)
          → IsKeeping
          → IsKept H (fresh p.class) p.class o
          → IsInOrder s.outcomes
          → IsPoolOf (some p) (latest s.outcomes)
          → IsSmart s
          → IsSmart (call_class H stratum_type call o p s).1
      unfolding call_class
      call_class-IsSmart none p s kept all order of_pool h = h
      call_class-IsSmart (some c) p s kept all order of_pool h =
          let start : World Value = record { stratum = p.session; effects = [] } in
          let after = (kept p.class c all).at start of_pool.2 in
          let quiet =
            IsSession-AllQuiet (asks_for_work p.class) (fresh p.class) (call c start).1 refl refl
              after in
          let passed = pass_on-IsInOrder (call c start).1.effects s.outcomes quiet order in
          (
            passed.0,
            (
              passed.1 ∙ of_pool.0,
              of_pool.1,
              IsSession-restart (asks_for_work p.class) (fresh p.class) (call c start).1 after,
            ),
          )

      call_pool-IsSmart :
          (o : Option PoolStratum) (s : SmartMining Value)
          → IsKeeping
          → IsPoolOf o (latest s.outcomes)
          → IsSmart s
          → IsSmart (call_pool H stratum_type call o s).1
      unfolding call_pool
      call_pool-IsSmart none s kept of_pool h = h
      call_pool-IsSmart (some p) s kept of_pool h =
          call_class-IsSmart (handlers_of H p.class) p s kept
            (handlers_of-IsKept H (fresh p.class) p.class) h.0 of_pool h

      through-IsSmart :
          (s : SmartMining Value)
          → IsKeeping
          → IsSmart s
          → IsSmart (through H stratum_type call s).1
      through-IsSmart s kept h = call_pool-IsSmart s.stratum_pool s kept h.1 h

    new_pool-IsPoolOf : (a : Algorithm) → IsPoolOf (new_pool stratum_type a) (some a)
    unfolding new_pool new_stratum handlers_of asks_for_work
    new_pool-IsPoolOf unknown = tt
    new_pool-IsPoolOf _ = (refl, refl, IsSession-fresh Value _ _)

    adopt-IsSmart :
        (a : Algorithm) (s : SmartMining Value)
        → IsSmart s
        → IsSmart (adopt_algorithm H stratum_type a s).1
    unfolding adopt_algorithm
    adopt-IsSmart a s h = elim (Bool-cases s.has_set_algorithm) [
      | inl on ↦ rw on (h.0, new_pool-IsPoolOf a)
      | inr off ↦ rw off h
    ]

    change_job-IsPoolOf :
        (f : JobInfo → JobInfo) (p : PoolStratum) (last : Option Algorithm)
        → IsPoolOf (some p) last
        → IsPoolOf (some (change_job f p)) last
    change_job-IsPoolOf f p last h =
        (h.0, h.1, ((IsSession-IsStable (asks_for_work p.class) (fresh p.class)).job f).at _ h.2)

    hand_pool-IsSmart :
        (o : Option PoolStratum) (s : SmartMining Value)
        → s.stratum_pool ≡ o
        → IsSmart s
        → IsSmart (hand_pool o s).1
    unfolding hand_pool
    hand_pool-IsSmart none s e h = h
    hand_pool-IsSmart (some p) s e h = elim (Bool-cases s.has_update_job) [
      | inl on ↦ rw on (
        (
          ap is_served (subst (λ o. IsPoolOf o (latest s.outcomes)) e h.1).0
              ∙ (subst (λ o. IsPoolOf o (latest s.outcomes)) e h.1).1,
          h.0,
        ),
        h.1,
      )
      | inr off ↦ rw off h
    ]

    if-IsSmart :
        (b : Bool) (x y : Answered Value)
        → IsSmart x.1
        → IsSmart y.1
        → IsSmart (if b then x else y).1
    if-IsSmart true x y h k = h
    if-IsSmart false x y h k = k

    -- An accessor that throws leaves the client as it is.
    read-IsSmart :
        {A : Type 0} (o : Option A) (s : SmartMining Value) (f : A → Answered Value)
        → IsSmart s
        → ((a : A) → IsSmart (f a).1)
        → IsSmart (elim o as (λ x. Answered Value) [ none ↦ (none, s) | some a ↦ f a ]).1
    read-IsSmart none s f h k = h
    read-IsSmart (some a) s f h k = k a

    set_algo-IsSmart :
        (root : Value) (s : SmartMining Value)
        → IsSmart s
        → IsSmart (on_smart_mining_set_algo H stratum_type root s).1
    unfolding on_smart_mining_set_algo
    set_algo-IsSmart root s h =
        read-IsSmart (text_at H stratum_type root (codes "params")) s _ h
          (λ name. adopt-IsSmart (to_enum name) s h)

    -- What the two layers of an answer about the extra nonce make of the client.
    nonce_pool-IsSmart :
        (o : Option PoolStratum) (r : Option (Option (JobInfo → JobInfo))) (s : SmartMining Value)
        → IsPoolOf o (latest s.outcomes)
        → IsSmart s
        → IsSmart (adopt_nonce r o s).1
    unfolding adopt_nonce
    nonce_pool-IsSmart none r s p h = h
    nonce_pool-IsSmart (some p) none s q h = h
    nonce_pool-IsSmart (some p) (some none) s q h = h
    nonce_pool-IsSmart (some p) (some (some f)) s q h =
        (h.0, change_job-IsPoolOf f p (latest s.outcomes) q)

    set_extra_nonce-IsSmart :
        (root : Value) (s : SmartMining Value)
        → IsSmart s
        → IsSmart (on_smart_mining_set_extra_nonce H stratum_type root s).1
    unfolding on_smart_mining_set_extra_nonce
    set_extra_nonce-IsSmart root s h = nonce_pool-IsSmart s.stratum_pool _ s h.1 h

    notified-IsSmart :
        (r : Option Bool) (s : SmartMining Value) → IsSmart s → IsSmart (notified r s).1
    unfolding notified
    notified-IsSmart none s h = h
    notified-IsSmart (some false) s h = h
    notified-IsSmart (some true) s h = hand_pool-IsSmart s.stratum_pool s refl h

    on_mining_notify-IsSmart :
        (root : Value) (s : SmartMining Value)
        → IsSmart s
        → IsSmart (on_mining_notify H stratum_type root s).1
    unfolding on_mining_notify
    on_mining_notify-IsSmart root s h =
        notified-IsSmart _ _
          (through-IsSmart (λ c. c.on_mining_notify root) s (λ a c all. all.notify root) h)

    on_method-IsSmart :
        (root : Value) (s : SmartMining Value)
        → IsSmart s
        → IsSmart (on_method H stratum_type root s).1
    unfolding on_method on_mining_set_difficulty on_mining_set_target
    on_method-IsSmart root s h =
        read-IsSmart (text_at H stratum_type root (codes "method")) s _ h λ name.
          (if-IsSmart (text_eq name (codes "smart_mining.set_algo")) _ _ (set_algo-IsSmart root s h)
            (if-IsSmart (text_eq name (codes "smart_mining.set_extra_nonce")) _ _
              (set_extra_nonce-IsSmart root s h)
              (if-IsSmart (text_eq name (codes "mining.notify")) _ _
                (on_mining_notify-IsSmart root s h)
                (if-IsSmart (text_eq name (codes "mining.set_difficulty")) _ _
                  (through-IsSmart (λ c. c.on_mining_set_difficulty root) s
                    (λ a c all. all.difficulty root) h)
                  (if-IsSmart (text_eq name (codes "mining.set_target")) _ _
                    (through-IsSmart (λ c. c.on_mining_set_target root) s
                      (λ a c all. all.target root) h)
                    h)))))

    report-IsSmart :
        (valid : Bool) (id : ℕ) (s : SmartMining Value)
        → 2 < id
        → IsSmart s
        → IsSmart (report H stratum_type valid id s)
    unfolding report
    report-IsSmart valid id s lt h = elim (Bool-cases s.has_share_status) [
      | inl on ↦ rw on ((lt, refl, h.0), h.1)
      | inr off ↦ rw off h
    ]

    on_response-IsSmart :
        (root : Value) (s : SmartMining Value)
        → IsSmart s
        → IsSmart (on_response H stratum_type root s).1
    unfolding on_response
    on_response-IsSmart root s h = read-IsSmart (request_id H stratum_type root) s _ h λ id.
        elim (Bool-cases (leb id 2)) [
          | inl low ↦ rw low h
          | inr high ↦ rw high (
              read-IsSmart (result_refused H stratum_type root) s _ h
                (λ bad. report-IsSmart _ id s (ground arith) h))
        ]

    handle-IsSmart :
        (root : Value) (s : SmartMining Value)
        → IsSmart s
        → IsSmart (handle H stratum_type root s).1
    unfolding handle
    handle-IsSmart root s h =
        if-IsSmart (is_some (H.find root (codes "method"))) _ _ (on_method-IsSmart root s h)
          (on_response-IsSmart root s h)

    pub on_receive-IsSmart :
        (message : Text) (s : SmartMining Value)
        → IsSmart s
        → IsSmart (on_receive H stratum_type message s)
    unfolding on_receive
    on_receive-IsSmart message s h =
        read-IsSmart (read_object H stratum_type message) s _ h λ root. handle-IsSmart root s h

    pub receive_all-IsSmart :
        (messages : List Text) (s : SmartMining Value)
        → IsSmart s
        → IsSmart (receive_all H stratum_type messages s)
    unfolding receive_all
    receive_all-IsSmart [] s h = h
    receive_all-IsSmart (m ∷ ms) s h = receive_all-IsSmart ms _ (on_receive-IsSmart m s h)
