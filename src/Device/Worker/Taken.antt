-- ===== src/Device/Worker/Taken.antt =====
-- sources/device/device.cpp: `updateJob` takes the newest job over, whatever the resolver answers.
use native.Mathlib.Omega.{arith}
use luminousminer.Prelude.{
  ℕ, ◌≤◌, ◌≡◌, refl, ap, ◌∙◌, Bool, true, false, not, ◌&&◌, Bool-cases, inl, inr, ◌==◌,
  if◌then◌else◌,
}
use luminousminer.Prelude.Int.{int_eq}
use luminousminer.Stratum.JobInfo.{JobInfo, copy}
use luminousminer.Device.AtomicCounter
use luminousminer.Device.AtomicCounter.{AtomicCounter}
use luminousminer.Device.Statistical.{Doubles}
use luminousminer.Device.Worker.{
  Resolver, Occupancy, Device, kill, take_job, renew_memory, renew_constants, finish_update,
  update_batch_nonce, go_on, reset_stats,
}
use luminousminer.Device.Worker.Counts.{IsCount, IsCount-update, IsCount-seen, update-is_equal}

module _ (D : Doubles) where
  abbrev pub HasCounts : ℕ → Device D → Type 0
  HasCounts n d = IsCount n d.job × IsCount n d.constant × IsCount n d.memory

  -- The device took the newest job over.
  unfoldable pub HasTaken : ℕ → JobInfo → Device D → Type 0
  HasTaken n j d =
      HasCounts n d × (AtomicCounter.is_equal d.job ≡ true) × (d.current_job ≡ j) × (d.next_job ≡ j)

  pub HasTaken-adopt :
      (n : ℕ) (d : Device D)
      → HasCounts n d
      → HasTaken n d.next_job (record d {
        current_job = copy d.current_job d.next_job;
        job = AtomicCounter.update d.job.current d.job;
      })
  unfolding copy HasTaken
  HasTaken-adopt n d (j, k, m) =
      ((IsCount-update n d.job j, k, m), update-is_equal d.job, refl, refl)

  pub HasTaken-reset_if :
      (n now : ℕ) (b : Bool) (d : Device D)
      → HasCounts n d
      → let d1 = if b then reset_stats D now d else d in
        HasTaken n d.next_job (record d1 {
          current_job = copy d1.current_job d1.next_job;
          job = AtomicCounter.update d.job.current d1.job;
        })
  HasTaken-reset_if n now true d c = HasTaken-adopt n (reset_stats D now d) c
  HasTaken-reset_if n now false d c = HasTaken-adopt n d c

  pub take_job-HasTaken :
      (config : Occupancy) (now n : ℕ) (d : Device D)
      → HasCounts n d
      → HasTaken n d.next_job (take_job D config now d.job.current d)
  unfolding take_job
  take_job-HasTaken config now n d c =
      let same =
        int_eq d.next_job.epoch d.current_job.epoch && d.next_job.period == d.current_job.period in
      HasTaken-reset_if n now (not same && not config.accumulate_hash) d c

  pub renew_memory-HasTaken :
      (r : Resolver) (need : Bool) (seen n : ℕ) (job : JobInfo) (d : Device D)
      → seen ≤ d.memory.current
      → HasTaken n job d
      → HasTaken n job (renew_memory D r need seen d).1
  unfolding renew_memory kill HasTaken
  renew_memory-HasTaken r true seen n job d low ((j, k, m), e, s, t) =
      elim (Bool-cases (r.update_memory d.current_job)) [
        | inl hit ↦ rw hit ((j, k, IsCount-seen n seen d.memory low m), e, s, t)
        | inr miss ↦ rw miss ((j, k, IsCount-seen n seen d.memory low m), e, s, t)
      ]
  renew_memory-HasTaken r false seen n job d low t = t

  pub renew_constants-HasTaken :
      (r : Resolver) (need : Bool) (seen n : ℕ) (job : JobInfo) (d : Device D)
      → seen ≤ d.constant.current
      → HasTaken n job d
      → HasTaken n job (renew_constants D r need seen d).1
  unfolding renew_constants kill HasTaken
  renew_constants-HasTaken r true seen n job d low ((j, k, m), e, s, t) =
      elim (Bool-cases (r.update_constants d.current_job)) [
        | inl hit ↦ rw hit ((j, IsCount-seen n seen d.constant low k, m), e, s, t)
        | inr miss ↦ rw miss ((j, IsCount-seen n seen d.constant low k, m), e, s, t)
      ]
  renew_constants-HasTaken r false seen n job d low t = t

  pub finish_update-HasTaken :
      (config : Occupancy) (r : Resolver) (now n : ℕ) (job : JobInfo) (b : Bool) (d : Device D)
      → HasTaken n job d
      → HasTaken n job (finish_update D config r now b d)
  unfolding finish_update update_batch_nonce HasTaken
  finish_update-HasTaken config r now n job true d t = t
  finish_update-HasTaken config r now n job false d t = t

  pub go_on-HasTaken :
      (n : ℕ) (job : JobInfo) (p : Bool × Device D) (f : Device D → Device D)
      → HasTaken n job p.1
      → HasTaken n job (f p.1)
      → HasTaken n job (go_on D p f)
  go_on-HasTaken n job (true, d) f t k = k
  go_on-HasTaken n job (false, d) f t k = t

  -- The counters that the job does not touch.
  take_job-keeps :
      (config : Occupancy) (now seen : ℕ) (d : Device D)
      → ((take_job D config now seen d).constant ≡ d.constant)
        × ((take_job D config now seen d).memory ≡ d.memory)
  unfolding take_job
  take_job-keeps config now seen d =
      let same =
        int_eq d.next_job.epoch d.current_job.epoch && d.next_job.period == d.current_job.period in
      elim (Bool-cases (not same && not config.accumulate_hash)) [
        | inl hit ↦ rw hit (refl, refl)
        | inr miss ↦ rw miss (refl, refl)
      ]

  renew_memory-constant :
      (r : Resolver) (need : Bool) (seen : ℕ) (d : Device D)
      → (renew_memory D r need seen d).1.constant ≡ d.constant
  unfolding renew_memory kill
  renew_memory-constant r true seen d = elim (Bool-cases (r.update_memory d.current_job)) [
    | inl hit ↦ rw hit refl
    | inr miss ↦ rw miss refl
  ]
  renew_memory-constant r false seen d = refl

  -- What an update does, whatever the resolver answers.
  pub updated-HasTaken :
      (config : Occupancy) (r : Resolver) (now n : ℕ) (constants memory : Bool) (d : Device D)
      → HasCounts n d
      → HasTaken n d.next_job (
          go_on D
            (renew_memory D r memory d.memory.current (take_job D config now d.job.current d))
            λ d1.
              go_on D
                (renew_constants D r constants d.constant.current d1)
                (finish_update D config r now memory))
  updated-HasTaken config r now n constants memory d c =
      let d0 = take_job D config now d.job.current d in
      let finish = finish_update D config r now memory in
      let kept = take_job-keeps config now d.job.current d in
      let d1 = renew_memory D r memory d.memory.current d0 in
      let low_memory = ap (λ (x : AtomicCounter). x.current) kept.1 in
      let low_constant =
        ap (λ (x : AtomicCounter). x.current)
          (renew_memory-constant r memory d.memory.current d0 ∙ kept.0) in
      let t1 =
        renew_memory-HasTaken r memory d.memory.current n d.next_job d0 (omega (arith, low_memory))
          (take_job-HasTaken config now n d c) in
      let d2 = renew_constants D r constants d.constant.current d1.1 in
      let t2 =
        renew_constants-HasTaken r constants d.constant.current n d.next_job d1.1
          (omega (arith, low_constant)) t1 in
      go_on-HasTaken n d.next_job d1
        (λ d1. go_on D (renew_constants D r constants d.constant.current d1) finish) t1
        (go_on-HasTaken n d.next_job d2 finish t2
          (finish_update-HasTaken config r now n d.next_job memory d2.1 t2))
