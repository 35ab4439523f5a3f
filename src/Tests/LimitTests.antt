-- ===== src/Tests/LimitTests.antt =====
-- The limit of retries (middleware_retry.go) at a job that may be retried twice and fails for the
-- fourth time.
use go_workers.Prelude.{refl, true, false, none, [], ◌∷◌, arith}
use go_workers.Prelude.Int.{pos}
use go_workers.Effect.{error}
use go_workers.Job.{Frame, RetriesExhaustedFunc}
use go_workers.Middleware.Retry.Limit.{Failed, Limited, failed_times, one_retry_more}
use go_workers.Tests.Instances.{tiny, tiny-Lawful, flag, int, object, entry, end}
use go_workers.Tests.StorageTests.{busy_memory}
use go_workers.Tests.RetryTests.{surroundings, failure}

abbrev limited : Frame surroundings
limited = record {
  message = record {
    json = object (entry "retry" (flag true) (entry "retry_max" (int (pos 2)) end));
    original = "job";
    ack = true;
    started_at = pos 5;
  };
  world = busy_memory;
}

limited-Failed : Failed tiny 2 0 limited.message.json
limited-Failed = record {
  object = refl;
  retried = refl;
  limit = refl;
  counts = (error "type assertion failed", refl);
}

-- A handler that leaves its mark on the message
abbrev marks : RetriesExhaustedFunc surroundings
marks q e f = (none, record f { message = record f.message { ack = false } })

one_retry_more_example :
    Limited tiny-Lawful surroundings (marks ∷ []) "q" failure 2 (omega arith) (omega arith) false (
      failed_times tiny-Lawful surroundings
        (marks ∷ [])
        "q"
        failure
        2
        (omega arith)
        (omega arith)
        3
        limited)
one_retry_more_example =
    one_retry_more tiny-Lawful surroundings (marks ∷ []) "q" failure 2 (omega arith) (omega arith) 3
      limited ((λ g. refl), tt) (omega arith) limited-Failed
