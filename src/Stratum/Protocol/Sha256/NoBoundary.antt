-- ===== src/Stratum/Protocol/Sha256/NoBoundary.antt =====
-- Sessions of sources/stratum whose job has no boundary: what leaves it so, and what they dispatch.
use mathlib.Core.List.{append-nil}
use native.Mathlib.Omega.{arith}
use luminousminer.Prelude.{ℕ, ◌≡◌, refl, ap, ◌∙◌, true, false, List, [], ◌∷◌, ◌++◌}
use luminousminer.Prelude.Text.{Text}
use luminousminer.Algo.HashUtils.{is_hash_empty}
use luminousminer.Stratum.JobInfo.{JobInfo}
use luminousminer.Stratum.ExtraNonce.{set_extra_nonce, set_extra_nonce-boundary}
use luminousminer.Stratum.Session.{
  Stratum, Effect, sent, dispatched, share_status, loop_timeout, World, emit, modify, modify_job,
}
use luminousminer.Stratum.Session.Keeps.{Keeps, Keeps-bind, Keeps-session, Keeps-if, Keeps-done}
use luminousminer.Stratum.Base.{
  is_valid_job, update_job, send_request, mining_authorize, report_share,
}
use luminousminer.Stratum.Stable.{KeepsReplies}

-- The jobs that were dispatched.
unfoldable pub jobs_of : {V : Type 0} → List (Effect V) → List JobInfo
jobs_of [] = []
jobs_of (sent r ∷ es) = jobs_of es
jobs_of (dispatched uuid job ∷ es) = job ∷ jobs_of es
jobs_of (share_status valid id uuid ∷ es) = jobs_of es
jobs_of (loop_timeout seconds ∷ es) = jobs_of es

is_valid_job-empty : (job : JobInfo) → is_hash_empty job.boundary ≡ true → is_valid_job job ≡ false
unfolding is_valid_job
is_valid_job-empty job h = ground (arith, h)

module _ {V : Type 0} where
  pub jobs_of-append : (es ds : List (Effect V)) → jobs_of (es ++ ds) ≡ jobs_of es ++ jobs_of ds
  unfolding jobs_of
  jobs_of-append [] ds = refl
  jobs_of-append (sent r ∷ es) ds = jobs_of-append es ds
  jobs_of-append (dispatched uuid job ∷ es) ds = ap (λ js. job ∷ js) (jobs_of-append es ds)
  jobs_of-append (share_status valid id uuid ∷ es) ds = jobs_of-append es ds
  jobs_of-append (loop_timeout seconds ∷ es) ds = jobs_of-append es ds

  -- No boundary, and these jobs were dispatched so far.
  unfoldable pub IsIdle : List JobInfo → World V → Type 0
  IsIdle jobs w = (is_hash_empty w.stratum.job_info.boundary ≡ true) × (jobs_of w.effects ≡ jobs)

  module _ (jobs : List JobInfo) where
    pub job-Keeps :
        (f : JobInfo → JobInfo)
        → ((j : JobInfo) → (f j).boundary ≡ j.boundary)
        → Keeps (IsIdle jobs) (modify_job f)
    unfolding IsIdle
    job-Keeps f same = record {
      at = λ w p. (ap is_hash_empty (same w.stratum.job_info) ∙ p.0, p.1);
    }

    pub modify-Keeps :
        (f : Stratum → Stratum)
        → ((s : Stratum) → (f s).job_info ≡ s.job_info)
        → Keeps (IsIdle jobs) (modify f)
    unfolding IsIdle
    modify-Keeps f same = record {
      at = λ w p. (ap (λ j. is_hash_empty j.boundary) (same w.stratum) ∙ p.0, p.1);
    }

    pub emit-Keeps : (e : Effect V) → jobs_of (e ∷ []) ≡ [] → Keeps (IsIdle jobs) (emit e)
    unfolding IsIdle
    emit-Keeps e none_new = record {
      at = λ w p. (
        p.0,
        jobs_of-append w.effects (e ∷ [])
            ∙ ap (λ js. jobs_of w.effects ++ js) none_new
            ∙ append-nil (jobs_of w.effects)
            ∙ p.1,
      );
    }

    pub authorize-Keeps : Keeps (IsIdle jobs) mining_authorize
    unfolding mining_authorize send_request jobs_of
    authorize-Keeps = Keeps-bind Keeps-session λ s. emit-Keeps _ refl

    pub replies : KeepsReplies (IsIdle jobs)
    unfolding report_share jobs_of
    replies = record {
      authenticated = λ b. modify-Keeps _ λ s. refl;
      report = λ valid id.
          Keeps-bind Keeps-session λ s. Keeps-if s.reports (emit-Keeps _ refl) Keeps-done;
    }

    -- Without a boundary there is no valid job.
    pub update_job-Keeps : Keeps (IsIdle jobs) update_job
    unfolding update_job IsIdle
    update_job-Keeps = record { at = λ w p. rw (is_valid_job-empty w.stratum.job_info p.0) p }

    pub extra-Keeps : (extra : Text) → Keeps (IsIdle jobs) (modify_job (set_extra_nonce extra))
    extra-Keeps extra = job-Keeps _ (set_extra_nonce-boundary extra)

    pub session-Keeps :
        (id : Text) → Keeps (IsIdle jobs) (modify (λ s. record s { session_id = id }))
    session-Keeps id = modify-Keeps _ λ s. refl

    pub size-Keeps :
        (n : ℕ) → Keeps (IsIdle jobs) (modify (λ s. record s { extra_nonce2_size = n }))
    size-Keeps n = modify-Keeps _ λ s. refl
