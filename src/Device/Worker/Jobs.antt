-- ===== src/Device/Worker/Jobs.antt =====
-- sources/device/device.cpp: which job a device works on, for every interleaving of the pool's
-- updates with the passes of the device's loop.
use native.Mathlib.Omega.{arith}
use luminousminer.Prelude.{
  ℕ, ◌+◌, ◌^◌, ◌≤◌, ◌<◌, ◌≡◌, refl, sym, ap, ◌∙◌, Bool, true, false, not, ◌&&◌, ◌||◌, Bool-cases,
  inl, inr, Option, none, if◌then◌else◌,
}
use luminousminer.Stratum.JobInfo.{JobInfo}
use luminousminer.Device.AtomicCounter
use luminousminer.Device.AtomicCounter.{AtomicCounter}
use luminousminer.Device.Statistical.{Doubles, Statistical}
use luminousminer.Device.Worker.{
  Resolver, Occupancy, Device, kill, update, new_device, take_over, update_job, execute, pass,
}
use luminousminer.Device.Worker.Counts.{
  IsCount, IsCount-weaken, IsCount-add, IsCount-add_if, add-pending, add_if-pending, not_pending,
  all_pending,
}
use luminousminer.Device.Worker.Taken.{HasCounts, HasTaken, updated-HasTaken}

-- The same work, wherever the search of the nonces stands.
pub IsSameWork : JobInfo → JobInfo → Type 0
IsSameWork a b = (record a { nonce = 0 }) ≡ record b { nonce = 0 }

module _ (D : Doubles) where
  -- After `n` events: the device is at the newest job, or knows that it has to take it over.
  unfoldable pub IsSynced : ℕ → Device D → Type 0
  IsSynced n d =
      HasCounts D n d
      × ((AtomicCounter.is_equal d.job ≡ true) → IsSameWork d.current_job d.next_job)
      × ((AtomicCounter.is_equal d.job ≡ false)
          → (AtomicCounter.is_equal d.constant && AtomicCounter.is_equal d.memory) ≡ false)

  HasTaken-IsSynced : (n : ℕ) (j : JobInfo) (d : Device D) → HasTaken D n j d → IsSynced n d
  unfolding IsSynced HasTaken IsSameWork
  HasTaken-IsSynced n j d (c, e, s, t) =
      (c, λ h. ap (λ (x : JobInfo). record x { nonce = 0 }) (s ∙ sym t), λ h. ground (arith, e, h))

  HasCounts-weaken : (n : ℕ) (d : Device D) → HasCounts D n d → HasCounts D (n + 1) d
  HasCounts-weaken n d (a, b, c) =
      (IsCount-weaken n d.job a, IsCount-weaken n d.constant b, IsCount-weaken n d.memory c)

  pub update-IsSynced :
      (n : ℕ) (memory constants : Bool) (job : JobInfo) (d : Device D)
      → (memory || constants) ≡ true
      → n + 1 < 2 ^ 64
      → IsSynced n d
      → IsSynced (n + 1) (update D memory constants job d)
  unfolding IsSynced update
  update-IsSynced n memory constants job d hit h ((j, k, m), current, pending) =
      let behind = add-pending n d.job h j in
      (
        (
          IsCount-add n d.job h j,
          IsCount-add_if n constants d.constant h k,
          IsCount-add_if n memory d.memory h m,
        ),
        λ e. ground (arith, behind, e),
        λ e. add_if-pending n memory constants d.constant d.memory hit h k m,
      )

  pub update-pending :
      (n : ℕ) (memory constants : Bool) (job : JobInfo) (d : Device D)
      → n + 1 < 2 ^ 64
      → IsSynced n d
      → AtomicCounter.is_equal (update D memory constants job d).job ≡ false
  unfolding IsSynced update
  update-pending n memory constants job d h ((j, k, m), rest, pending) = add-pending n d.job h j

  execute-IsSynced :
      (n : ℕ) (r : Resolver) (d : Device D) → IsSynced n d → IsSynced n (execute D r d).1
  unfolding execute kill IsSynced IsSameWork
  execute-IsSynced n r d s = elim (Bool-cases (r.execute d.current_job)) [
    | inl hit ↦ rw hit s
    | inr miss ↦ rw miss s
  ]

  if-IsSynced :
      {A : Type 0} (n : ℕ) (b : Bool) (x y : A × Device D)
      → IsSynced n x.1
      → IsSynced n y.1
      → IsSynced n (if b then x else y).1
  if-IsSynced n true x y h k = h
  if-IsSynced n false x y h k = k

  update_job-IsSynced :
      (config : Occupancy) (r : Resolver) (now n : ℕ) (d : Device D)
      → IsSynced n d
      → IsSynced n (update_job D config r now d).1
  unfolding update_job take_over IsSynced
  update_job-IsSynced config r now n d s =
      let need_constant = not (AtomicCounter.is_equal d.constant) in
      let need_memory = not (AtomicCounter.is_equal d.memory) in
      if-IsSynced n _ _ _ s (
        HasTaken-IsSynced n d.next_job _
          (updated-HasTaken D config r now n need_constant need_memory d s.0))

  pub pass-IsSynced :
      (config : Occupancy) (r : Resolver) (now n : ℕ) (d : Device D)
      → IsSynced n d
      → IsSynced n (pass D config r now d).1
  unfolding pass
  pass-IsSynced config r now n d s =
      let s1 = update_job-IsSynced config r now n d s in
      let d1 = update_job D config r now d in
      if-IsSynced n _ (none, record d { computing = false })
        (if d1.0 then (none, d1.1) else execute D r d1.1) (unfold IsSynced in s)
        (if-IsSynced n d1.0 (none, d1.1) (execute D r d1.1) s1 (execute-IsSynced n r d1.1 s1))

  -- The fields that the jobs do not depend on.
  pub IsSynced-flags :
      (n : ℕ) (d : Device D) (alive computing : Bool) (stats : Statistical D)
      → IsSynced n d
      → IsSynced n (record d { alive = alive; computing = computing; mining_stats = stats })
  unfolding IsSynced
  IsSynced-flags n d alive computing stats s = s

  pub IsSynced-weaken : (n : ℕ) (d : Device D) → IsSynced n d → IsSynced (n + 1) d
  unfolding IsSynced
  IsSynced-weaken n d (c, s, t) = (HasCounts-weaken n d c, s, t)

  pub IsSynced-new :
      (id : ℕ) (stratum : Option ℕ) (stats : Statistical D)
      → IsSynced 0 (new_device D id stratum stats)
  unfolding IsSynced IsCount IsSameWork AtomicCounter.is_equal
  IsSynced-new id stratum stats =
      let z : 0 ≤ 0 = omega arith in (((z, z), (z, z), (z, z)), λ h. refl, λ h. h)

  abbrev unless : Bool → Device D → Device D → Bool × Device D
  unless b d x = if b then (false, d) else (true, x)

  skipped :
      (b : Bool) (d x : Device D) → (unless b d x).0 ≡ false → (b ≡ true) × ((unless b d x).1 ≡ d)
  skipped true d x h = (refl, refl)
  skipped false d x h = ground (arith, h)

  -- An update is skipped by a device that is at the newest job only.
  pub update_job-skipped :
      (config : Occupancy) (r : Resolver) (now n : ℕ) (d : Device D)
      → IsSynced n d
      → (update_job D config r now d).0 ≡ false
      → ((update_job D config r now d).1 ≡ d) × IsSameWork d.current_job d.next_job
  unfolding update_job take_over IsSynced
  update_job-skipped config r now n d (c, current, pending) h =
      let (skip, same) = skipped _ d _ h in (same, current (not_pending _ _ _ skip pending))

  unless-taken :
      (n : ℕ) (j : JobInfo) (b : Bool) (d x : Device D)
      → b ≡ false
      → HasTaken D n j x
      → ((unless b d x).0 ≡ true) × HasTaken D n j (unless b d x).1
  unless-taken n j true d x h t = ground (arith, h)
  unless-taken n j false d x h t = (refl, t)

  update_job-taken :
      (config : Occupancy) (r : Resolver) (now n : ℕ) (d : Device D)
      → IsSynced n d
      → AtomicCounter.is_equal d.job ≡ false
      → ((update_job D config r now d).0 ≡ true)
        × HasTaken D n d.next_job (update_job D config r now d).1
  unfolding update_job take_over IsSynced
  update_job-taken config r now n d (c, current, pending) behind =
      let need_constant = not (AtomicCounter.is_equal d.constant) in
      let need_memory = not (AtomicCounter.is_equal d.memory) in
      unless-taken n d.next_job _ d _ (all_pending _ _ _ behind (pending behind))
        (updated-HasTaken D config r now n need_constant need_memory d c)

  abbrev in_loop :
      Bool → Device D → Bool × Device D → Option JobInfo × Device D → Option JobInfo × Device D
  in_loop alive dead updated rest =
      if not alive then (none, dead) else if updated.0 then (none, updated.1) else rest

  in_loop-taken :
      (n : ℕ) (j : JobInfo) (alive : Bool) (dead : Device D) (u : Bool × Device D)
      (rest : Option JobInfo × Device D)
      → alive ≡ true
      → u.0 ≡ true
      → HasTaken D n j u.1
      → ((in_loop alive dead u rest).0 ≡ none) × HasTaken D n j (in_loop alive dead u rest).1
  in_loop-taken n j false dead u rest h k t = ground (arith, h)
  in_loop-taken n j true dead (false, d) rest h k t = ground (arith, k)
  in_loop-taken n j true dead (true, d) rest h k t = (refl, t)

  -- A device that lives and has a job pending takes it over in the next pass.
  pub pass-takes :
      (config : Occupancy) (r : Resolver) (now n : ℕ) (d : Device D)
      → d.alive ≡ true
      → IsSynced n d
      → AtomicCounter.is_equal d.job ≡ false
      → ((pass D config r now d).0 ≡ none)
        × (AtomicCounter.is_equal (pass D config r now d).1.job ≡ true)
        × ((pass D config r now d).1.current_job ≡ d.next_job)
  unfolding pass HasTaken
  pass-takes config r now n d live s behind =
      let (did, taken) = update_job-taken config r now n d s behind in
      let u = update_job D config r now d in
      let (nothing, (c, e, job, next)) =
        in_loop-taken n d.next_job d.alive (record d { computing = false }) u (execute D r u.1) live
          did taken in
      (nothing, e, job)
