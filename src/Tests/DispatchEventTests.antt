-- ===== src/Tests/DispatchEventTests.antt =====
-- The program for events at a job of Sidekiq, whose arguments are an array.
use go_workers.Prelude.{◌≡◌, refl, none, some, [], ◌∷◌}
use go_workers.Prelude.Int.{pos}
use go_workers.Effect.{error, ok, err}
use go_workers.Msg.{args}
use go_workers.Middleware.Chain.{build}
use go_workers.Middleware.Retry.{retry, retry_count, retry_max}
use go_workers.DispatchEvent.{
  Dynamic, Surrounding, check_args, event_middlewares, event_dispatcher_processor,
  exhausted_handler,
}
use go_workers.DispatchEvent.Malformed.{Settled, malformed_retried}
use go_workers.Tests.Instances.{job}
use go_workers.Tests.StatsTests.{counts}
use go_workers.Tests.RetryTests.{surroundings, failed_job, answers}

abbrev around : Surrounding surroundings
around = record {
  unmarshal = λ s. err (error "json: cannot unmarshal array into Go value of type main.JobArgs");
  printf = λ words w. w;
  sleep = λ w. w;
}

malformed_retried_example : Settled surroundings (
    build surroundings
      (event_middlewares surroundings around)
      "sidekiq:default"
      (exhausted_handler surroundings around ∷ [])
      (event_dispatcher_processor surroundings around)
      failed_job)
unfolding retry retry_count retry_max args
malformed_retried_example =
    malformed_retried surroundings around (exhausted_handler surroundings around ∷ [])
      "sidekiq:default" counts answers failed_job job
      (error "json: cannot unmarshal array into Go value of type main.JobArgs") refl refl refl refl
      refl

-- An event without a source is logged and counts as done.
test_no_source :
    (check_args surroundings around
      (record {
        event_hash = some (("type", Dynamic.a_string "message") ∷ []);
        event_class_name = "Event";
        slack_app_installation_id = pos 1;
        slack_user_id = none;
      })
      failed_job).0
    ≡ ok tt
unfolding check_args
test_no_source = refl
