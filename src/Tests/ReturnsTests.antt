-- ===== src/Tests/ReturnsTests.antt =====
-- The theorem on a retried message at a job that has failed once, at a server in memory.
use go_workers.Prelude.{refl, String, []}
use go_workers.Storage.Instance.{redis_store-StoreLaws}
use go_workers.Storage.Refinement.{jobs}
use go_workers.Middleware.Retry.{retry, retry_count, retry_max, retry_process_error}
use go_workers.Effect.{text}
use go_workers.Msg.{to_json}
use go_workers.Storage.RedisStore.Sorted.{enqueue_retried_message}
use go_workers.Scheduled.{forward}
use go_workers.Scheduled.Forward.{stamped}
use go_workers.Scheduled.Returns.{kept_text, Queued, retried_returns}
use go_workers.Tests.Instances.{tiny-Lawful, in_memory-Documented, again}
use go_workers.Tests.StorageTests.{stored, busy_memory}
use go_workers.Tests.RetryTests.{surroundings, failed_job, failure}

abbrev after_failure : String
after_failure =
    kept_text tiny-Lawful surroundings "app:" (jobs stored in_memory-Documented)
      (redis_store-StoreLaws stored in_memory-Documented).0 (λ w. refl) [] "q" failure failed_job

retried_returns_example :
    Queued surroundings
      (jobs stored in_memory-Documented)
      "q"
      (stamped surroundings "app:" after_failure again busy_memory)
      busy_memory
      (forward surroundings "app:" after_failure busy_memory)
unfolding retry retry_count retry_max retry_process_error to_json enqueue_retried_message text
retried_returns_example =
    retried_returns tiny-Lawful surroundings "app:" (jobs stored in_memory-Documented)
      (redis_store-StoreLaws stored in_memory-Documented).0 (λ w. refl) [] "q" failure failed_job
      busy_memory refl refl refl refl
