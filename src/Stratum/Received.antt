-- ===== src/Stratum/Received.antt =====
-- What the handlers of sources/stratum let out, whatever messages a pool sends.
use luminousminer.Prelude.{
  ℕ, ◌≡◌, refl, sym, ap, ◌∙◌, Bool, true, false, ◌&&◌, ◌⊎◌, List, [], ◌∷◌, ◌++◌, if◌then◌else◌,
  Bool-cases, inl, inr,
}
use luminousminer.Prelude.Text.{Text}
use luminousminer.Algo.Epoch.{empty_cache}
use luminousminer.Stratum.JobInfo.{empty_job}
use luminousminer.Stratum.Host.{Host}
use luminousminer.Stratum.Session.{
  Stratum, text, Request, Effect, sent, dispatched, share_status, loop_timeout, World, ◌>>=◌, done,
  session, emit,
}
use luminousminer.Stratum.Session.Keeps.{Keeps}
use luminousminer.Stratum.Base.{
  is_valid_job, update_job, send_request, mining_authorize, report_share, worker_text,
  id_mining_authorize, eth_get_work, do_loop_timeout,
}
use luminousminer.Stratum.Stable.{IsStable, receive_all, receive_all-keeps}
use luminousminer.Stratum.Protocol.Ethash
use luminousminer.Stratum.Protocol.Ethash.Stable as EthashStable
use luminousminer.Stratum.Protocol.KHeavyHash
use luminousminer.Stratum.Protocol.KHeavyHash.Stable as KHeavyHashStable
use luminousminer.Stratum.Protocol.Blake3
use luminousminer.Stratum.Protocol.ProgPow.Stable.{IsStableMore}
use luminousminer.Stratum.Protocol.Blake3.Stable as Blake3Stable

and_left : (a b : Bool) → (a && b) ≡ true → a ≡ true
and_left true b h = refl
and_left false b h = h

and_right : (a b : Bool) → (a && b) ≡ true → b ≡ true
and_right true b h = h
and_right false true h = refl
and_right false false h = h

-- Who the miner is to the pool: all but the job, the login, the cache, what a pool
-- sets of it, and the random numbers.
identity : Stratum → Stratum
identity s = record s {
  job_info = empty_job;
  authenticated = false;
  epoch_cache = empty_cache;
  session_id = [];
  extra_nonce2_size = 0;
  worker_id = [];
  max_errors = 0;
  resume = 0;
  timeout = 0;
  draws = λ n. 0;
}

-- `asks` tells whether the protocol asks for work and starts the loop of `doLoopTimeout`.
module _ {V : Type 0} (asks : Bool) where
  -- What a session may let out: its own login, valid jobs under its number while jobs are
  -- dispatched, and replies to shares under its number while replies are reported.
  IsEffectOf : Stratum → Effect V → Type 0
  IsEffectOf s (sent r) =
      (r.id ≡ id_mining_authorize) × (r.params ≡ text (worker_text s) ∷ text s.password ∷ [])
      ⊎ (asks ≡ true) × (r.id ≡ 5) × (r.params ≡ [])
  IsEffectOf s (dispatched uuid job) =
      (uuid ≡ s.uuid) × (s.dispatches ≡ true) × (is_valid_job job ≡ true)
  IsEffectOf s (share_status valid request uuid) = (uuid ≡ s.uuid) × (s.reports ≡ true)
  IsEffectOf s (loop_timeout seconds) = asks ≡ true

  AllEffectsOf : Stratum → List (Effect V) → Type 0
  unfolding IsEffectOf
  AllEffectsOf s [] = Unit
  AllEffectsOf s (e ∷ es) = IsEffectOf s e × AllEffectsOf s es

  unfoldable pub IsSession : Stratum → World V → Type 0
  unfolding AllEffectsOf identity
  IsSession s w = (identity w.stratum ≡ identity s) × AllEffectsOf s w.effects

  AllEffectsOf-append :
      (s : Stratum) (es : List (Effect V)) (e : Effect V)
      → AllEffectsOf s es
      → IsEffectOf s e
      → AllEffectsOf s (es ++ e ∷ [])
  unfolding AllEffectsOf
  AllEffectsOf-append s [] e h k = (k, tt)
  AllEffectsOf-append s (d ∷ es) e (h, hs) k = (h, AllEffectsOf-append s es e hs k)

  module _ (s : Stratum) where
    -- An effect that depends on the session is judged by the session at that point.
    emits :
        (e : Stratum → Effect V)
        → ((t : Stratum) → identity t ≡ identity s → IsEffectOf s (e t))
        → Keeps (IsSession s) (session >>= λ t. emit (e t))
    unfolding IsSession
    emits e h = record {
      at = λ w p. (p.0, AllEffectsOf-append s w.effects (e w.stratum) p.1 (h w.stratum p.0));
    }

    authorize-IsSession : Keeps (IsSession s) mining_authorize
    unfolding mining_authorize send_request IsEffectOf identity
    authorize-IsSession =
        emits _ λ t same. inl (refl, ap (λ x. text (worker_text x) ∷ text x.password ∷ []) same)

    emits_if :
        (b : Stratum → Bool) (e : Stratum → Effect V)
        → ((t : Stratum) → identity t ≡ identity s → b t ≡ true → IsEffectOf s (e t))
        → Keeps (IsSession s) (session >>= λ t. if b t then emit (e t) else done)
    unfolding IsSession
    emits_if b e h = record {
      at = λ w p. elim (Bool-cases (b w.stratum)) [
        | inl hit ↦
            rw hit (p.0, AllEffectsOf-append s w.effects (e w.stratum) p.1 (h w.stratum p.0 hit))
        | inr miss ↦ rw miss p
      ];
    }

    report-IsSession : (valid : Bool) (id : ℕ) → Keeps (IsSession s) (report_share valid id)
    unfolding report_share IsEffectOf identity
    report-IsSession valid id =
        emits_if (λ t. t.reports) (λ t. share_status valid id t.uuid)
          λ t same on. (ap (λ x. x.uuid) same, sym (ap (λ x. x.reports) same) ∙ on)

    dispatch-IsSession : Keeps (IsSession s) update_job
    unfolding update_job IsEffectOf identity
    dispatch-IsSession =
        emits_if (λ t. is_valid_job t.job_info && t.dispatches) (λ t. dispatched t.uuid t.job_info)
          λ t same on. (
            ap (λ x. x.uuid) same,
            sym (ap (λ x. x.dispatches) same) ∙ and_right _ _ on,
            and_left _ _ on,
          )

    pub IsSession-IsStable : IsStable (IsSession s)
    unfolding IsSession identity
    IsSession-IsStable = record {
      job = λ f. record { at = λ w p. p };
      authenticated = λ b. record { at = λ w p. p };
      cache = λ c. record { at = λ w p. p };
      named = λ id. record { at = λ w p. p };
      second_size = λ n. record { at = λ w p. p };
      authorize = authorize-IsSession;
      report = report-IsSession;
      dispatch = dispatch-IsSession;
    }

-- An effect that is neither a job nor a reply to a share.
abbrev pub is_quiet : {V : Type 0} → Effect V → Bool
is_quiet (dispatched uuid job) = false
is_quiet (share_status valid request uuid) = false
is_quiet _ = true

abbrev pub AllQuiet : {V : Type 0} → List (Effect V) → Type 0
AllQuiet [] = Unit {0}
AllQuiet (e ∷ es) = (is_quiet e ≡ true) × AllQuiet es

module _ {V : Type 0} (asks : Bool) (s : Stratum) where
  effect-is_quiet :
      (e : Effect V)
      → s.dispatches ≡ false
      → s.reports ≡ false
      → IsEffectOf asks s e
      → is_quiet e ≡ true
  unfolding IsEffectOf
  effect-is_quiet (sent r) no_jobs no_replies h = refl
  effect-is_quiet (dispatched uuid job) no_jobs no_replies h = sym no_jobs ∙ h.1
  effect-is_quiet (share_status valid id uuid) no_jobs no_replies h = sym no_replies ∙ h.1
  effect-is_quiet (loop_timeout n) no_jobs no_replies h = refl

  effects-AllQuiet :
      (es : List (Effect V))
      → s.dispatches ≡ false
      → s.reports ≡ false
      → AllEffectsOf asks s es
      → AllQuiet es
  unfolding AllEffectsOf
  effects-AllQuiet [] no_jobs no_replies h = tt
  effects-AllQuiet (e ∷ es) no_jobs no_replies h =
      (effect-is_quiet e no_jobs no_replies h.0, effects-AllQuiet es no_jobs no_replies h.1)

  -- A session without its callbacks lets out no job and no reply.
  pub IsSession-AllQuiet :
      (w : World V)
      → s.dispatches ≡ false
      → s.reports ≡ false
      → IsSession asks s w
      → AllQuiet w.effects
  unfolding IsSession
  IsSession-AllQuiet w no_jobs no_replies h = effects-AllQuiet w.effects no_jobs no_replies h.1

  -- A message starts with no effects.
  pub IsSession-restart :
      (w : World V)
      → IsSession asks s w
      → IsSession {V = V} asks s (record { stratum = w.stratum; effects = [] })
  unfolding IsSession AllEffectsOf
  IsSession-restart w h = (h.0, tt)

pub IsSession-fresh :
    (V : Type 0) (asks : Bool) (s : Stratum)
    → IsSession {V = V} asks s (record { stratum = s; effects = [] })
unfolding IsSession AllEffectsOf
IsSession-fresh V asks s = (refl, tt)

-- A protocol that asks for work lets that out too.
module _ {V : Type 0} (s : Stratum) where
  asks-IsSession :
      (r : Request V) → r.id ≡ 5 → r.params ≡ [] → Keeps (IsSession true s) (emit (sent r))
  unfolding IsSession IsEffectOf
  asks-IsSession r five empty = record {
    at = λ w p. (p.0, AllEffectsOf-append true s w.effects (sent r) p.1 (inr (refl, five, empty)));
  }

  loop-IsSession : Keeps (IsSession {V = V} true s) do_loop_timeout
  unfolding do_loop_timeout IsEffectOf
  loop-IsSession = emits true s (λ t. loop_timeout t.timeout) λ t same. refl

  pub IsSession-IsStableMore : IsStableMore (IsSession {V = V} true s)
  unfolding IsSession identity eth_get_work send_request
  IsSession-IsStableMore = record {
    errors = λ n. record { at = λ w p. p };
    resume = λ n. record { at = λ w p. p };
    timeout = λ n. record { at = λ w p. p };
    worker = λ t. record { at = λ w p. p };
    drawn = λ f. record { at = λ w p. p };
    get_work = asks-IsSession _ refl refl;
    loop = loop-IsSession;
  }

-- From a start that is in order, whatever messages a pool sends to the Ethash protocol, the session
-- lets out its own login, valid jobs and replies to shares only, the jobs and replies under its own
-- number and while their callbacks are set, and its identity stays the same.
pub ethash_lets_out :
    (H : Host) (s : Stratum) (messages : List Text) (w : World H.Value)
    → IsSession false s w
    → IsSession false s (receive_all H (Ethash.handlers H) messages w)
ethash_lets_out H s messages w start =
    receive_all-keeps H (IsSession false s) (Ethash.handlers H)
      (EthashStable.handlers-KeepsAll H (IsSession false s) (IsSession-IsStable false s)) messages w
      start

-- From a start that is in order, whatever messages a pool sends to the kHeavyHash protocol, the
-- session lets out its own login, valid jobs and replies to shares only, the jobs and replies under
-- its own number and while their callbacks are set, and its identity stays the same.
pub kheavyhash_lets_out :
    (H : Host) (s : Stratum) (messages : List Text) (w : World H.Value)
    → IsSession false s w
    → IsSession false s (receive_all H (KHeavyHash.handlers H) messages w)
kheavyhash_lets_out H s messages w start =
    receive_all-keeps H (IsSession false s) (KHeavyHash.handlers H)
      (KHeavyHashStable.handlers-KeepsAll H (IsSession false s) (IsSession-IsStable false s))
      messages w start

-- From a start that is in order, whatever messages a pool sends to the Blake3 protocol, the session
-- lets out its own login, valid jobs and replies to shares only, the jobs and replies under its own
-- number and while their callbacks are set, and its identity stays the same.
pub blake3_lets_out :
    (H : Host) (s : Stratum) (messages : List Text) (w : World H.Value)
    → IsSession false s w
    → IsSession false s (receive_all H (Blake3.handlers H) messages w)
blake3_lets_out H s messages w start =
    receive_all-keeps H (IsSession false s) (Blake3.handlers H)
      (Blake3Stable.handlers-KeepsAll H (IsSession false s) (IsSession-IsStable false s)) messages w
      start
