-- ===== src/Device/Worker/Search.antt =====
-- sources/device/device.cpp: what a device launches, for every sequence of updates and passes, each as a whole.
use native.Mathlib.Omega.{arith}
use luminousminer.Prelude.{
  ℕ, ◌+◌, ◌*◌, ◌^◌, ◌<◌, ◌≡◌, subst, Bool, true, false, ◌||◌, Option, none, List, [], ◌∷◌, length,
  if◌then◌else◌,
}
use luminousminer.Prelude.Word.{u64}
use luminousminer.Stratum.JobInfo.{JobInfo, copy}
use luminousminer.Device.Statistical.{Doubles, Statistical}
use luminousminer.Device.Worker.{
  Resolver, Occupancy, Device, kill, update, increase_share, get_hashrate, pass, begin_work, wake,
  new_device,
}
use luminousminer.Device.Worker.Jobs.{
  IsSynced, update-IsSynced, pass-IsSynced, IsSynced-flags, IsSynced-new, IsSynced-weaken,
  update-pending, pass-takes,
}

-- What happens to a device, in the order in which its threads and those of the pools do it, each as a
-- whole; Worker/Interleaved has an update in the midst of `updateJob`.
pub data Event : Type 0 where
  begins : Bool → Bool → Bool → Event
  wakes : ℕ → Event
  new_job : Bool → Bool → JobInfo → Event
  next_pass : Resolver → ℕ → Event
  share : Bool → Event
  read_hashrate : ℕ → Event
  killed : Event

-- `DeviceManager::onUpdateJob` asks for at least one of the two updates.
unfoldable pub IsAsked : Event → Type 0
IsAsked (new_job memory constants job) = (memory || constants) ≡ true
IsAsked _ = Unit

unfoldable pub AllAsked : List Event → Type 0
unfolding IsAsked
AllAsked [] = Unit
AllAsked (e ∷ es) = IsAsked e × AllAsked es

module _ (D : Doubles) (config : Occupancy) where
  unfoldable pub step : Event → Device D → Device D
  unfolding update pass increase_share get_hashrate begin_work wake kill
  step (begins enabled initialized has_resolver) d = begin_work D enabled initialized has_resolver d
  step (wakes now) d = wake D now d
  step (new_job memory constants job) d = update D memory constants job d
  step (next_pass r now) d = if d.computing then (pass D config r now d).1 else d
  step (share valid) d = increase_share D valid d
  step (read_hashrate now) d = (get_hashrate D config now d).1
  step killed d = kill D d

  unfoldable pub run : List Event → Device D → Device D
  unfolding step
  run [] d = d
  run (e ∷ es) d = run es (step e d)

  if-IsSynced :
      (n : ℕ) (b : Bool) (d e : Device D)
      → IsSynced D n d
      → IsSynced D n e
      → IsSynced D n (if b then d else e)
  if-IsSynced n true d e h k = h
  if-IsSynced n false d e h k = k

  step-IsSynced :
      (n : ℕ) (e : Event) (d : Device D)
      → IsAsked e
      → n + 1 < 2 ^ 64
      → IsSynced D n d
      → IsSynced D (n + 1) (step e d)
  unfolding step IsAsked increase_share get_hashrate begin_work wake kill
  step-IsSynced n (begins true true true) d a h s =
      IsSynced-flags D (n + 1) d _ _ _ (IsSynced-weaken D n d s)
  step-IsSynced n (begins true true false) d a h s = IsSynced-weaken D n d s
  step-IsSynced n (begins true false b) d a h s = IsSynced-weaken D n d s
  step-IsSynced n (begins false b c) d a h s =
      IsSynced-flags D (n + 1) d _ _ _ (IsSynced-weaken D n d s)
  step-IsSynced n (wakes now) d a h s =
      let t = IsSynced-weaken D n d s in
      if-IsSynced (n + 1) _ _ _ t (IsSynced-flags D (n + 1) d _ _ _ t)
  step-IsSynced n (new_job memory constants job) d a h s =
      update-IsSynced D n memory constants job d a h s
  step-IsSynced n (next_pass r now) d a h s =
      if-IsSynced (n + 1) d.computing _ _
        (IsSynced-weaken D n _ (pass-IsSynced D config r now n d s)) (IsSynced-weaken D n d s)
  step-IsSynced n (share valid) d a h s = IsSynced-flags D (n + 1) d _ _ _ (IsSynced-weaken D n d s)
  step-IsSynced n (read_hashrate now) d a h s =
      IsSynced-flags D (n + 1) d _ _ _ (IsSynced-weaken D n d s)
  step-IsSynced n killed d a h s = IsSynced-flags D (n + 1) d _ _ _ (IsSynced-weaken D n d s)

  run-IsSynced :
      (es : List Event) (n : ℕ) (d : Device D)
      → AllAsked es
      → n + length es < 2 ^ 64
      → IsSynced D n d
      → IsSynced D (n + length es) (run es d)
  unfolding run AllAsked
  run-IsSynced [] n d a h s = subst (λ k. IsSynced D k d) (omega arith) s
  run-IsSynced (e ∷ es) n d (a, later) h s =
      let t =
        run-IsSynced es (n + 1) (step e d) later (omega arith)
          (step-IsSynced n e d a (omega arith) s) in
      subst (λ k. IsSynced D k (run es (step e d))) (omega arith) t

  -- For a new device, any history of fewer than 2 ^ 64 - 1 events, each as a whole and each update of which
  -- asks for the memory or the constants, and a device that lives after it: when a job comes in, the next
  -- pass launches nothing and takes that job over, with the nonce moved by the device's number of gaps,
  -- whatever the resolver answers.
  pub newest_job_is_taken :
      (id : ℕ) (stratum : Option ℕ) (stats : Statistical D) (es : List Event)
      (memory constants : Bool) (job : JobInfo) (r : Resolver) (now : ℕ)
      → AllAsked es
      → (memory || constants) ≡ true
      → length es + 1 < 2 ^ 64
      → (run es (new_device D id stratum stats)).alive ≡ true
      → ((pass D config r now
            (step (new_job memory constants job) (run es (new_device D id stratum stats)))).0
          ≡ none)
        × ((pass D config r now (
              step
                (new_job memory constants job)
                (run es (new_device D id stratum stats)))).1.current_job
            ≡ record job {
              nonce =
                  u64
                    (job.nonce + u64 (job.gap_nonce * (run es (new_device D id stratum stats)).id));
            })
  unfolding step update copy
  newest_job_is_taken id stratum stats es memory constants job r now asked some_update bound live =
      let n = 0 + length es in
      let d = run es (new_device D id stratum stats) in
      let s = run-IsSynced es 0 _ asked (omega arith) (IsSynced-new D id stratum stats) in
      let (nothing, equal, taken) =
        pass-takes D config r now (n + 1) (update D memory constants job d) live
          (update-IsSynced D n memory constants job d some_update (omega arith) s)
          (update-pending D n memory constants job d (omega arith) s) in
      (nothing, taken)
