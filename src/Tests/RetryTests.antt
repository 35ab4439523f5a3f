-- ===== src/Tests/RetryTests.antt =====
-- The theorems on middleware_retry.go at a job whose first attempt has failed.
use go_workers.Prelude.{ℕ, ◌+◌, ◌*◌, ◌^◌, ◌≡◌, refl, String, true, false, none, [], arith, inl, ◌⊎◌}
use go_workers.Prelude.Int.{ℤ, pos, negsuc}
use go_workers.Effect.{Error, error, text, of_value, ok, err, panic}
use go_workers.Msg.{to_json}
use go_workers.Job.{Env, Frame, JobFunc}
use go_workers.Storage.Instance.{redis_store}
use go_workers.Storage.RedisStore.Sorted.{enqueue_retried_message}
use go_workers.Middleware.Retry.{
  retry, retry_count, retry_max, next_count, seconds_to_delay, seconds_duration,
  retry_process_error,
}
use go_workers.Middleware.Retry.Stored.{Answered, nil_means_stored, ack_unless_refused}
use go_workers.Middleware.Retry.Fields.{written, retry_fields}
use go_workers.Middleware.Retry.Delay.{wait_exact, wait_overflows}
use mathlib.Core.List.{foldr}
use go_workers.Middleware.Chain.{append, prepend, build, default_middlewares, nop_middleware}
use go_workers.Middleware.Pipeline.{build-order}
use go_workers.Tests.Instances.{tiny, tiny-Lawful, Memory, job}
use go_workers.Tests.StorageTests.{stored, busy_memory}

abbrev pub surroundings : Env tiny
surroundings = record {
  World = Memory;
  store = redis_store stored;
  now = λ w. (pos 7, w);
  intn = λ n w. (3, w);
  println = λ words w. w;
}

abbrev pub failed_job : Frame surroundings
failed_job = record {
  message = record { json = job; original = "job"; ack = true; started_at = pos 5 };
  world = busy_memory;
}

abbrev job_done : JobFunc surroundings
job_done f = (ok tt, f)

abbrev job_panics : JobFunc surroundings
job_panics f = (panic (of_value "oops"), f)

abbrev pub failure : Error
failure = error "no route"

nil_means_stored_example :
    (t : ℤ) × (w : Memory) × (surroundings.store.enqueue_retried_message t
        (to_json (retry_process_error surroundings [] "q" failure failed_job).1.message)
        w
      ≡ (ok tt, (retry_process_error surroundings [] "q" failure failed_job).1.world))
unfolding retry_process_error enqueue_retried_message
nil_means_stored_example = nil_means_stored surroundings [] "q" failure failed_job refl

pub answers :
    (t : ℤ) (m : String) (w : Memory)
    → ((surroundings.store.enqueue_retried_message t m w).0 ≡ ok tt)
      ⊎ ((x : Error) × ((surroundings.store.enqueue_retried_message t m w).0 ≡ err x))
unfolding enqueue_retried_message
answers t m w = inl refl

ack_unless_refused_example :
    Answered surroundings [] "q" failure failed_job
      (retry_process_error surroundings [] "q" failure failed_job)
unfolding retry retry_count retry_max
ack_unless_refused_example =
    ack_unless_refused surroundings [] "q" failure failed_job answers refl refl

retry_fields_example :
    let j = (retry_process_error surroundings [] "q" failure failed_job).1.message.json in
    (tiny.is_object j ≡ true)
    × (tiny.as_string (tiny.get j "queue") ≡ ("q", none))
    × (tiny.as_string (tiny.get j "error_message") ≡ (text failure, none))
    × (tiny.as_int (tiny.get j "retry_count") ≡ ((next_count failed_job.message).0, none))
    × ((k : String) → written k ≡ false → tiny.get j k ≡ tiny.get failed_job.message.json k)
unfolding retry retry_count retry_max
retry_fields_example =
    retry_fields tiny-Lawful surroundings "q" failure failed_job refl [] refl refl

wait_exact_example :
    seconds_duration (seconds_to_delay tiny (pos 3) 7) ≡ pos ((3 ^ 4 + 15 + 7 * (3 + 1)) * 10 ^ 9)
wait_exact_example = wait_exact tiny-Lawful 3 7 (omega arith) (omega arith)

wait_overflows_example : (k : ℕ) × (seconds_duration (seconds_to_delay tiny (pos 310) 7) ≡ negsuc k)
wait_overflows_example = wait_overflows tiny-Lawful 310 7 (omega arith) (omega arith) (omega arith)

build-order_example :
    (build surroundings (default_middlewares surroundings) "q" [] job_done
      ≡ foldr (λ mid next. mid "q" [] next) job_done (default_middlewares surroundings))
    × (build surroundings
          (append surroundings (default_middlewares surroundings) (nop_middleware surroundings))
          "q"
          []
          job_done
        ≡ build surroundings
            (default_middlewares surroundings)
            "q"
            []
            (nop_middleware surroundings "q" [] job_done))
    × (build surroundings
          (prepend surroundings (default_middlewares surroundings) (nop_middleware surroundings))
          "q"
          []
          job_done
        ≡ nop_middleware surroundings "q" []
            (build surroundings (default_middlewares surroundings) "q" [] job_done))
build-order_example =
    build-order surroundings "q" [] (default_middlewares surroundings) (nop_middleware surroundings)
      job_done
