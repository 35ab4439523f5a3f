-- ===== src/Tests/StartedTests.antt =====
-- The theorem on a manager whose workers start, at one with two workers that it has just got.
use go_workers.Prelude.{◌≡◌, refl, false, not, none, List, [], ◌⊎◌, All}
use go_workers.Prelude.Int.{pos}
use go_workers.Effect.{ok}
use go_workers.Random.{Randomness}
use go_workers.Worker.{Worker}
use go_workers.Manager.State.{Manager, ManagerOptions, new_manager, add_worker, activate, run_hooks}
use go_workers.Manager.State.Synced.{Synced}
use go_workers.Manager.Started.{start_workers, Started, start_workers-Synced}
use go_workers.Tests.Instances.{Memory}
use go_workers.Tests.StorageTests.{busy_memory}
use go_workers.Tests.RetryTests.{surroundings}
use go_workers.Tests.SystemTests.{succeeds}

abbrev dice : Randomness Memory
dice = record { read = λ n w. (ok [], w); hex = λ bytes. ""; intn = λ n w. (0, w) }

abbrev plain : ManagerOptions
plain = record {
  namespace = "app:";
  manager_display_name = "";
  manager_start_inactive = false;
  manager_priority = none;
}

abbrev two_queues : Manager surroundings
two_queues =
    add_worker "b" (pos 2) succeeds []
      (add_worker "a" (pos 0) succeeds [] (new_manager plain "00ff"))

start_workers-Synced_example :
    (ys : List (Worker surroundings)) × (v : Memory) × (start_workers surroundings dice "1"
        two_queues.active two_queues.workers busy_memory
      ≡ (ok ys, v))
    × All (Started surroundings dice (λ n w h. h) two_queues.active) ys
    × (m' : Manager surroundings) × (m'.active ≡ false)
    × Synced m'
    × (((two_queues.active ≡ false)
          × (activate surroundings [] false (record two_queues { workers = ys }, v)
              ≡ (ok tt, (m', v))))
        ⊎ ((two_queues.active ≡ not false)
            × (activate surroundings [] false (record two_queues { workers = ys }, v)
                ≡ run_hooks surroundings [] false (not false) (m', v))))
unfolding add_worker new_manager
start_workers-Synced_example =
    start_workers-Synced surroundings dice (λ n w h. h) "1" [] false two_queues busy_memory
      (refl, (refl, tt))
