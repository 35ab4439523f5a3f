-- ===== src/Tests/StatsTests.antt =====
-- The count of a job (middleware_stats.go) at a job that panics.
use go_workers.Prelude.{◌≡◌, refl, String, inl, ◌⊎◌}
use go_workers.Effect.{Error, of_value, ok, err, panic}
use go_workers.Storage.RedisStore.Counters.{increment_stats}
use go_workers.Job.{JobFunc}
use go_workers.Middleware.Stats.{stats_middleware}
use go_workers.Middleware.Stats.Once.{counted_end, counts_once}
use go_workers.Tests.Instances.{Memory}
use go_workers.Tests.RetryTests.{surroundings, failed_job}

abbrev oops : JobFunc surroundings
oops f = (panic (of_value "oops"), f)

pub counts :
    (metric : String) (w : Memory)
    → ((surroundings.store.increment_stats metric w).0 ≡ ok tt)
      ⊎ ((x : Error) × ((surroundings.store.increment_stats metric w).0 ≡ err x))
unfolding increment_stats
counts metric w = inl refl

counts_once_example :
    stats_middleware surroundings "q" oops failed_job
    ≡ counted_end surroundings "q" oops counts failed_job (panic (of_value "oops"))
counts_once_example = counts_once surroundings "q" oops counts failed_job
