-- ===== src/Device/Worker.antt =====
-- sources/device/device.cpp: the loop of a device and what other threads do to it. `update` runs on
-- the thread of the pool and `updateJob` on the device's own. Each is put together from the steps between
-- which the other thread can come: the copy of the job, the shift of its nonce and the counters; and the
-- flags, the counters and what follows from them. Worker/Interleaved has the two of them at once. The
-- resolver (a GPU or CPU kernel) is a parameter, and so is the time.
pub mod Counts
pub mod Taken
pub mod Jobs
pub mod Search
pub mod Scan
pub mod Interleaved
use luminousminer.Prelude.{
  ℕ, ◌+◌, ◌*◌, ◌%◌, ◌^◌, Bool, true, false, not, ◌&&◌, ◌||◌, Option, none, some, List, [], ◌∷◌, leb,
  ◌==◌, if◌then◌else◌,
}
use luminousminer.Prelude.Int.{int_eq}
use luminousminer.Prelude.Word.{u32, u64}
use luminousminer.Stratum.JobInfo.{JobInfo, empty_job, copy}
use luminousminer.Device.AtomicCounter
use luminousminer.Device.AtomicCounter.{AtomicCounter}
use luminousminer.Device.Statistical
use luminousminer.Device.Statistical.{Doubles, Statistical, ShareInfo}

-- What the resolver answers in one pass of the loop.
pub record Resolver : Type 0 where
  pub update_memory : JobInfo → Bool
  pub update_constants : JobInfo → Bool
  pub execute : JobInfo → Bool
  pub blocks : ℕ
  pub threads : ℕ

-- `Config::occupancy`.
pub record Occupancy : Type 0 where
  pub internal_loop : Option ℕ
  pub kernel_minimum_execute_needed : ℕ
  pub accumulate_hash : Bool

-- What `updateJob` reads of the counters.
pub record Needs : Type 0 where
  pub job : Bool
  pub constant : Bool
  pub memory : Bool

pub record Counters : Type 0 where
  pub job : ℕ
  pub constant : ℕ
  pub memory : ℕ

-- `if (flag) counter.add(1)`.
abbrev pub add_if : Bool → AtomicCounter → AtomicCounter
add_if flag c = if flag then AtomicCounter.add 1 c else c

module _ (D : Doubles) where
  pub record Device : Type 0 where
    pub id : ℕ
    pub alive : Bool
    pub computing : Bool
    -- The `uuid` of the stratum, where there is one.
    pub stratum : Option ℕ
    pub mining_stats : Statistical D
    pub next_job : JobInfo
    pub current_job : JobInfo
    pub job : AtomicCounter
    pub constant : AtomicCounter
    pub memory : AtomicCounter

  -- A device as its constructor leaves it, with the number that the manager gives it.
  abbrev pub new_device : ℕ → Option ℕ → Statistical D → Device
  new_device id stratum stats = record {
    id = id;
    alive = false;
    computing = false;
    stratum = stratum;
    mining_stats = stats;
    next_job = empty_job;
    current_job = empty_job;
    job = AtomicCounter.new 0;
    constant = AtomicCounter.new 0;
    memory = AtomicCounter.new 0;
  }

  unfoldable pub kill : Device → Device
  kill d = record d { alive = false }

  -- The steps of `update`.
  abbrev pub write_job : JobInfo → Device → Device
  write_job new_job d = record d { next_job = copy d.next_job new_job }

  abbrev pub shift_nonce : Device → Device
  shift_nonce d =
      let next = d.next_job in
      record d { next_job = record next { nonce = u64 (next.nonce + u64 (next.gap_nonce * d.id)) } }

  abbrev pub announce : Bool → Bool → Device → Device
  announce memory constants d = record d {
    constant = add_if constants d.constant;
    memory = add_if memory d.memory;
    job = AtomicCounter.add 1 d.job;
  }

  unfoldable pub update : Bool → Bool → JobInfo → Device → Device
  unfolding copy
  update memory constants new_job d = announce memory constants (shift_nonce (write_job new_job d))

  unfoldable pub increase_share : Bool → Device → Device
  increase_share is_valid d =
      let shares = d.mining_stats.shares in
      let info = record shares { total = u64 (shares.total + 1) } in
      record d {
        mining_stats = record d.mining_stats {
          shares =
              (if is_valid
                then record info { valid = u64 (info.valid + 1) }
                else record info { invalid = u64 (info.invalid + 1) });
        };
      }

  unfoldable pub get_hashrate : Occupancy → ℕ → Device → D.Double × Device
  unfolding Statistical.stop Statistical.update_hashrate Statistical.reset
  get_hashrate config now d =
      let stats =
        if leb config.kernel_minimum_execute_needed d.mining_stats.kernel_executed
        then Statistical.reset D now
            (Statistical.update_hashrate D (Statistical.stop D now d.mining_stats))
        else d.mining_stats in
      (stats.hashrates, record d { mining_stats = stats })

  unfoldable pub clean_job : Device → Device
  unfolding copy
  clean_job d = record d { next_job = copy d.next_job empty_job }

  abbrev pub reset_stats : ℕ → Device → Device
  reset_stats now d = record d { mining_stats = Statistical.reset D now d.mining_stats }

  -- The product of `blocks`, `threads` and `internalLoop` is one of uint32_t.
  unfoldable pub batch_of : Occupancy → Resolver → ℕ
  batch_of config r =
      u32 (u32 (r.blocks * r.threads) * elim config.internal_loop [ none ↦ 1 | some n ↦ n ])

  unfoldable pub update_batch_nonce : Occupancy → Resolver → ℕ → Bool → Device → Device
  unfolding batch_of Statistical.set_batch_nonce Statistical.reset_hashrate Statistical.reset
  update_batch_nonce config r now reset d =
      let stats = Statistical.set_batch_nonce D (batch_of config r) d.mining_stats in
      record d {
        mining_stats =
            if reset then Statistical.reset D now (Statistical.reset_hashrate D stats) else stats;
      }

  -- `currentJobInfo.copy(nextjobInfo)`, with the reset of a new epoch or period before it.
  unfoldable pub take_job : Occupancy → ℕ → ℕ → Device → Device
  unfolding copy
  take_job config now seen d =
      let same =
        int_eq d.next_job.epoch d.current_job.epoch && d.next_job.period == d.current_job.period in
      let d1 = if not same && not config.accumulate_hash then reset_stats now d else d in
      record d1 {
        current_job = copy d1.current_job d1.next_job;
        job = AtomicCounter.update seen d1.job;
      }

  -- The block of `needUpdateMemory`, and whether the update goes on.
  unfoldable pub renew_memory : Resolver → Bool → ℕ → Device → Bool × Device
  unfolding kill AtomicCounter.update
  renew_memory r need seen d =
      let d1 = record d { memory = AtomicCounter.update seen d.memory } in
      if not need
      then (true, d)
      else if r.update_memory d.current_job
      then (true, d1)
      else (false, kill d1)

  unfoldable pub renew_constants : Resolver → Bool → ℕ → Device → Bool × Device
  unfolding kill AtomicCounter.update
  renew_constants r need seen d =
      let d1 = record d { constant = AtomicCounter.update seen d.constant } in
      if not need
      then (true, d)
      else if r.update_constants d.current_job
      then (true, d1)
      else (false, kill d1)

  -- The end of `updateJob`, where both updates succeeded.
  unfoldable pub finish_update : Occupancy → Resolver → ℕ → Bool → Device → Device
  unfolding update_batch_nonce
  finish_update config r now memory d =
      update_batch_nonce config r now (not config.accumulate_hash || memory)
        (if memory then reset_stats now d else d)

  abbrev pub go_on : Bool × Device → (Device → Device) → Device
  go_on (true, d) f = f d
  go_on (false, d) f = d

  -- The flags that `updateJob` reads first, and the counters that it reads next.
  abbrev pub needs_of : Device → Needs
  needs_of d = record {
    job = not (AtomicCounter.is_equal d.job);
    constant = not (AtomicCounter.is_equal d.constant);
    memory = not (AtomicCounter.is_equal d.memory);
  }

  abbrev pub counters_of : Device → Counters
  counters_of d = record {
    job = d.job.current;
    constant = d.constant.current;
    memory = d.memory.current;
  }

  -- The rest of `updateJob`, with the flags and the counters that it read.
  unfoldable pub take_over : Occupancy → Resolver → ℕ → Needs → Counters → Device → Bool × Device
  unfolding take_job renew_memory renew_constants finish_update
  take_over config r now needs seen d =
      if not needs.job || not needs.constant && not needs.memory then (false, d) else (
        true,
        go_on (renew_memory r needs.memory seen.memory (take_job config now seen.job d)) λ d1.
            go_on (renew_constants r needs.constant seen.constant d1)
              (finish_update config r now needs.memory),
      )

  unfoldable pub update_job : Occupancy → Resolver → ℕ → Device → Bool × Device
  unfolding take_over
  update_job config r now d = take_over config r now (needs_of d) (counters_of d) d

  -- The rest of a pass that found nothing to update, and the job it launched. The shares that
  -- `submit` finds go to the stratum and leave the device alone.
  unfoldable pub execute : Resolver → Device → Option JobInfo × Device
  unfolding kill Statistical.increase_kernel_executed
  execute r d =
      let stats = Statistical.increase_kernel_executed D d.mining_stats in
      let job = d.current_job in
      if not (r.execute job) then (none, kill d) else (
        some job,
        record d {
          mining_stats = stats;
          current_job = record job { nonce = u64 (job.nonce + stats.batch_nonce) };
        },
      )

  -- `loopDoWork` up to `waitJob`: the configuration enables the device, `initialize` succeeds, and
  -- there is a resolver.
  unfoldable pub begin_work : Bool → Bool → Bool → Device → Device
  unfolding kill
  begin_work enabled initialized has_resolver d =
      if not enabled
      then kill d
      else if not initialized || not has_resolver
      then d
      else record d { alive = true }

  -- `waitJob` returns once the counter of the jobs moved.
  unfoldable pub wake : ℕ → Device → Device
  unfolding AtomicCounter.is_equal
  wake now d =
      if AtomicCounter.is_equal d.job then d else reset_stats now (record d { computing = true })

  -- One pass of the `while` of `loopDoWork`; a device that is not alive left the loop.
  unfoldable pub pass : Occupancy → Resolver → ℕ → Device → Option JobInfo × Device
  unfolding update_job execute
  pass config r now d =
      let updated = update_job config r now d in
      if not d.alive
      then (none, record d { computing = false })
      else if updated.0
      then (none, updated.1)
      else execute r updated.1
