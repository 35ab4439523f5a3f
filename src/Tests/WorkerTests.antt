-- ===== src/Tests/WorkerTests.antt =====
-- The theorems on worker.go, fetcher.go and task_runner.go at a job that fails.
use go_workers.Prelude.{refl, true, false, []}
use go_workers.Effect.{err}
use go_workers.Job.{Frame, JobFunc}
use go_workers.Middleware.Retry.{retry, retry_count, retry_max}
use go_workers.Worker.{SimpleFetcher, begin}
use go_workers.Worker.Held.{Kept, stored_or_kept}
use go_workers.Tests.StorageTests.{busy_memory}
use go_workers.Tests.RetryTests.{surroundings, failed_job, failure, answers}

abbrev fetcher : SimpleFetcher
fetcher = record { queue = "q"; process_id = "1"; is_active = true; is_closed = false }

abbrev job_fails : JobFunc surroundings
job_fails f = (err failure, f)

abbrev begun : Frame surroundings
begun = begin surroundings failed_job.message busy_memory

stored_or_kept_example :
    Kept surroundings [] "q" job_fails fetcher failed_job.message busy_memory failure begun refl
unfolding begin retry retry_count retry_max
stored_or_kept_example =
    stored_or_kept surroundings [] "q" job_fails fetcher failed_job.message busy_memory failure
      begun refl answers refl refl refl
