-- ===== src/Tests/ManagerTests.antt =====
-- The theorems on manager.go at two managers with a heartbeat.
use go_workers.Prelude.{◌≡◌, String, true, false, none, some, List, [], ◌∷◌}
use go_workers.Prelude.Int.{ℤ, pos}
use go_workers.Effect.{ok}
use go_workers.Storage.Types.{Heartbeat, WorkerHeartbeat}
use go_workers.Storage.Instance.{redis_store}
use go_workers.Worker.{Worker}
use go_workers.Manager.State.{Manager}
use go_workers.Manager.Expired.{expire_heartbeats}
use go_workers.Manager.Expired.Once.{bury_each, expired, expires_once}
use go_workers.Tests.StorageTests.{stored}
use go_workers.Tests.RetryTests.{surroundings, failed_job}

abbrev dead_workers : List WorkerHeartbeat
dead_workers =
    record { pid = pos 1; tid = "abc"; queue = "q"; in_progress_queue = "running" }
    ∷ record { pid = pos 1; tid = "def"; queue = "q"; in_progress_queue = "running" }
    ∷ []

abbrev pub beat_of : String → ℤ → ℤ → Heartbeat
beat_of identity priority time = record {
  identity = identity;
  beat = time;
  quiet = false;
  busy = pos 0;
  rtt_us = pos 0;
  rss = pos 0;
  info = "";
  pid = pos 1;
  manager_priority = priority;
  active_manager = true;
  ttl = pos 60;
  worker_heartbeats = dead_workers;
}

abbrev two_beats : List Heartbeat
two_beats = beat_of "a" (pos 3) (pos 10) ∷ beat_of "b" (pos 1) (pos 90) ∷ []

expires_once_example :
    expire_heartbeats (redis_store stored) two_beats (pos 50)
    ≡ bury_each (redis_store stored) (expired two_beats (pos 50))
expires_once_example = expires_once (redis_store stored) two_beats (pos 50)

abbrev started : Worker surroundings
started = record {
  queue = "q";
  in_progress_queue = "q:1:inprogress";
  handler = λ handlers f. (ok tt, f);
  concurrency = pos 1;
  runners = record { tid = "abc"; current_msg = some failed_job.message } ∷ [];
  running = true;
  fetcher = some (record { queue = "q"; process_id = "1"; is_active = true; is_closed = false });
}

abbrev pub running_manager : Manager surroundings
running_manager = record {
  opts = record {
    namespace = "app:";
    manager_display_name = "";
    manager_start_inactive = false;
    manager_priority = none;
  };
  workers = started ∷ started ∷ [];
  running = true;
  active = true;
  process_nonce = "00ff";
  retries_exhausted_handlers = [];
}
