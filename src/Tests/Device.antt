-- ===== src/Tests/Device.antt =====
-- sources/device at concrete inputs.
use native.Mathlib.Omega.{arith}
use luminousminer.Prelude.{
  ℕ, ◌+◌, ◌*◌, ◌<◌, ◌≡◌, ◌≢◌, refl, true, false, List, [], ◌∷◌, none, some, get_elem?,
}
use luminousminer.Prelude.Word.{u64}
use luminousminer.Stratum.JobInfo.{JobInfo, empty_job, copy}
use luminousminer.Device.AtomicCounter
use luminousminer.Device.Statistical
use luminousminer.Device.Worker.{
  Resolver, Occupancy, Device, new_device, update, kill, begin_work, wake, take_over, take_job,
  renew_memory, renew_constants, finish_update, batch_of, update_batch_nonce, update_job, execute,
  pass, increase_share,
}
use luminousminer.Device.Worker.Jobs.{IsSynced-flags, IsSynced-new}
use luminousminer.Device.Worker.Scan.{scan}
use luminousminer.Device.Worker.Search.{
  Event, begins, wakes, new_job, next_pass, share, AllAsked, IsAsked, step, run,
  newest_job_is_taken,
}
use luminousminer.Device.Manager.{Manager, share_out}
use luminousminer.Device.Manager.Searches.{
  Searcher, IsSearching, launches, batch, searches_disjoint,
}
use luminousminer.Tests.Concrete.{small_doubles, small_stats, small_job}

abbrev works : Resolver
works = record {
  update_memory = λ j. true;
  update_constants = λ j. true;
  execute = λ j. true;
  blocks = 4;
  threads = 16;
}

abbrev occupancy : Occupancy
occupancy = record {
  internal_loop = none;
  kernel_minimum_execute_needed = 100;
  accumulate_hash = true;
}

abbrev first_device : Device small_doubles
first_device = new_device small_doubles 0 (some 4) small_stats

abbrev second_device : Device small_doubles
second_device = new_device small_doubles 1 (some 4) small_stats

-- A device that lives and gets the job, and then launches three batches.
abbrev searcher : Device small_doubles → Searcher small_doubles
searcher d = record {
  device = record d { alive = true; computing = true; mining_stats = small_stats };
  events = 0;
  memory = true;
  constants = true;
  resolver = works;
  now = 1;
  times = 2 ∷ 3 ∷ 4 ∷ [];
}

searcher-IsSearching :
    (id : ℕ)
    → id < 2
    → IsSearching small_doubles occupancy 2 small_job
        (searcher (new_device small_doubles id (some 4) small_stats))
unfolding pass update update_job take_over take_job renew_memory renew_constants finish_update
    batch_of update_batch_nonce execute copy kill share_out AtomicCounter.is_equal AtomicCounter.add
    AtomicCounter.update Statistical.reset Statistical.start Statistical.set_batch_nonce
    Statistical.reset_hashrate Statistical.increase_kernel_executed
searcher-IsSearching id small = record {
  numbered = small;
  asked = refl;
  synced =
      IsSynced-flags small_doubles 0 (new_device small_doubles id (some 4) small_stats) true true
        small_stats (IsSynced-new small_doubles id (some 4) small_stats);
  few = omega arith;
  lives = refl;
  lives_on = refl;
  runs = λ j. refl;
}

abbrev first_launch : JobInfo
first_launch = record small_job { nonce = 1128; gap_nonce = 2048 }

abbrev second_launch : JobInfo
second_launch = record small_job { nonce = 3048; gap_nonce = 2048 }

launched_first :
    get_elem? (launches small_doubles occupancy 2 small_job (searcher first_device)) 2
    ≡ some (some first_launch)
unfolding scan pass update update_job take_over take_job renew_memory renew_constants finish_update
    batch_of update_batch_nonce execute copy kill share_out AtomicCounter.is_equal AtomicCounter.add
    AtomicCounter.update Statistical.reset Statistical.start Statistical.set_batch_nonce
    Statistical.reset_hashrate Statistical.increase_kernel_executed
launched_first = refl

launched_second :
    get_elem? (launches small_doubles occupancy 2 small_job (searcher second_device)) 0
    ≡ some (some second_launch)
unfolding scan pass update update_job take_over take_job renew_memory renew_constants finish_update
    batch_of update_batch_nonce execute copy kill share_out AtomicCounter.is_equal AtomicCounter.add
    AtomicCounter.update Statistical.reset Statistical.start Statistical.set_batch_nonce
    Statistical.reset_hashrate Statistical.increase_kernel_executed
launched_second = refl

first_batch : batch small_doubles occupancy 2 small_job (searcher first_device) ≡ 64
unfolding scan pass update update_job take_over take_job renew_memory renew_constants finish_update
    batch_of update_batch_nonce execute copy kill share_out AtomicCounter.is_equal AtomicCounter.add
    AtomicCounter.update Statistical.reset Statistical.start Statistical.set_batch_nonce
    Statistical.reset_hashrate Statistical.increase_kernel_executed
first_batch = refl

second_batch : batch small_doubles occupancy 2 small_job (searcher second_device) ≡ 64
unfolding scan pass update update_job take_over take_job renew_memory renew_constants finish_update
    batch_of update_batch_nonce execute copy kill share_out AtomicCounter.is_equal AtomicCounter.add
    AtomicCounter.update Statistical.reset Statistical.start Statistical.set_batch_nonce
    Statistical.reset_hashrate Statistical.increase_kernel_executed
second_batch = refl

searches_disjoint_example : first_launch.nonce + 63 ≢ second_launch.nonce + 0
searches_disjoint_example =
    searches_disjoint small_doubles occupancy 2 small_job (searcher first_device)
      (searcher second_device) 2 0 63 0 first_launch second_launch
      (searcher-IsSearching 0 (omega arith)) (searcher-IsSearching 1 (omega arith)) (omega arith)
      (omega arith) launched_first launched_second (omega (arith, first_batch))
      (omega (arith, second_batch)) (omega (arith, first_batch)) (omega (arith, second_batch))

abbrev small_manager : Manager small_doubles
small_manager = record {
  job_infos = empty_job ∷ empty_job ∷ empty_job ∷ empty_job ∷ empty_job ∷ [];
  devices = some first_device ∷ none ∷ some second_device ∷ [];
}

abbrev history : List Event
history =
    begins true true true
    ∷ new_job true true small_job
    ∷ wakes 1
    ∷ next_pass works 2
    ∷ share true
    ∷ []

history-AllAsked : AllAsked history
unfolding AllAsked IsAsked
history-AllAsked = (tt, (refl, (tt, (tt, (tt, tt)))))

abbrev launched_job : JobInfo
launched_job = record small_job { nonce = 5096 }

launch_happens :
    (pass small_doubles occupancy works 3 (run small_doubles occupancy history second_device)).0
    ≡ some launched_job
unfolding run step pass update kill begin_work wake update_job take_over take_job renew_memory
    renew_constants finish_update batch_of update_batch_nonce execute copy increase_share
    AtomicCounter.is_equal AtomicCounter.add AtomicCounter.update Statistical.reset
    Statistical.start Statistical.set_batch_nonce Statistical.reset_hashrate
    Statistical.increase_kernel_executed
launch_happens = refl

history_lives : (run small_doubles occupancy history second_device).alive ≡ true
unfolding run step pass update kill begin_work wake update_job take_over take_job renew_memory
    renew_constants finish_update batch_of update_batch_nonce execute copy increase_share
    AtomicCounter.is_equal AtomicCounter.add AtomicCounter.update Statistical.reset
    Statistical.start Statistical.set_batch_nonce Statistical.reset_hashrate
    Statistical.increase_kernel_executed
history_lives = refl

newest_job_is_taken_example :
    ((pass small_doubles occupancy works 4 (
        step small_doubles occupancy
          (new_job false true small_job)
          (run small_doubles occupancy history second_device))).0
      ≡ none)
    × ((pass small_doubles occupancy works 4 (
          step small_doubles occupancy
            (new_job false true small_job)
            (run small_doubles occupancy history second_device))).1.current_job
        ≡ record small_job {
          nonce = u64 (1000 + u64 (4096 * (run small_doubles occupancy history second_device).id));
        })
newest_job_is_taken_example =
    newest_job_is_taken small_doubles occupancy 1 (some 4) small_stats history false true small_job
      works 4 history-AllAsked refl (omega arith) history_lives

-- A device that lives, with an update pending.
abbrev pending_device : Device small_doubles
pending_device = update small_doubles true true small_job (record second_device { alive = true })

abbrev next_small_job : JobInfo
next_small_job = record small_job { nonce = 7000 }

abbrev busy_device : Device small_doubles
busy_device = record first_device {
  alive = true;
  current_job = small_job;
  mining_stats = record small_stats { batch_nonce = 64 };
}
