-- ===== src/Tests/RecoveryTests.antt =====
-- The theorem on a process that dies, at a worker that is stuck with two messages of an earlier run.
use go_workers.Prelude.{◌≤◌, ◌<◌, ◌≡◌, refl, String, true, List, [], ◌∷◌, All, length, arith}
use go_workers.Prelude.Int.{pos}
use go_workers.Effect.{ok}
use go_workers.Storage.Types.{WorkerHeartbeat}
use go_workers.Storage.Instance.{redis_store}
use go_workers.Storage.Refinement.{jobs}
use go_workers.Storage.Keys.{get_queue_name}
use go_workers.Storage.RedisStore.Queues.{requeue_messages_from_in_progress_queue}
use go_workers.Worker.{in_progress_queue}
use go_workers.Worker.System.Counts.{count, held}
use go_workers.Manager.Expired.{StaleMessageUpdate, expire_workers}
use go_workers.Recovery.{OfWorker, dead_worker_recovered}
use go_workers.Tests.Instances.{Memory, in_memory-Documented}
use go_workers.Tests.StorageTests.{stored}
use go_workers.Tests.SystemTests.{
  fetcher, succeeds, one_runner, old_memory, jammed, around, reaches_jam,
}

abbrev beat : String → WorkerHeartbeat
beat tid = record { pid = pos 1; tid = tid; queue = "q"; in_progress_queue = "q:1:inprogress" }

abbrev two_runners : List WorkerHeartbeat
two_runners = beat "abc" ∷ beat "def" ∷ []

abbrev recovered : Memory
recovered = (expire_workers (redis_store stored) two_runners [] jammed.world).1

abbrev updates : List StaleMessageUpdate
updates =
    record {
      queue = "q";
      in_progress_queue = "q:1:inprogress";
      requeued_msgs = "other" ∷ "job" ∷ [];
    }
    ∷ []

expires : expire_workers (redis_store stored) two_runners [] jammed.world ≡ (ok updates, recovered)
unfolding expire_workers requeue_messages_from_in_progress_queue get_queue_name
expires = refl

its_runners : All (OfWorker fetcher) two_runners
unfolding in_progress_queue
its_runners = ((refl, refl), ((refl, refl), tt))

enough :
    length ((jobs stored in_memory-Documented jammed.world).queues (in_progress_queue fetcher))
    < stored.fuel
unfolding in_progress_queue get_queue_name
enough = omega arith

dead_worker_recovered_example :
    held "other" jammed ≤ count "other" ((jobs stored in_memory-Documented recovered).queues "q")
dead_worker_recovered_example =
    dead_worker_recovered stored in_memory-Documented (λ w. (pos 7, w)) (λ n w. (3, w))
      (λ words w. w) succeeds fetcher around one_runner true old_memory (tt, tt) reaches_jam enough
      (beat "abc") (beat "def" ∷ []) recovered updates its_runners expires "other"
