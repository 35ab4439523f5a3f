-- ===== src/Storage/RedisStore/Sorted.antt =====
-- storage/redis.go: the sorted sets of scheduled and of retried messages.
use go_workers.Prelude.{String, ◌<>◌, List, [], ◌∷◌, ◌==◌, if◌then◌else◌}
use go_workers.Prelude.Int.{pos, negsuc}
use go_workers.Effect.{no_message, Io, pure, fail, ◌>>=◌, ◌>>◌, try}
use go_workers.External.Platform.{Platform}
use go_workers.External.Redis.{first_error, error_of, val_or, report_unless_nil}
use go_workers.Storage.Types.{Retries, retry_key, scheduled_jobs_key}
use go_workers.Storage.Keys.{get_queue_name}
use go_workers.Storage.Client.{RedisStore}

module _ {p : Platform} (s : RedisStore p) where
  open s use {namespace, client}

  unfoldable pub enqueue_message :
      (queue : String) (priority : p.Float) (message : String) → Io s.client.Db (Unit {0})
  enqueue_message queue priority message = do
    client.zadd (get_queue_name namespace queue) priority message
    pure tt

  unfoldable pub enqueue_scheduled_message :
      (priority : p.Float) (message : String) → Io s.client.Db (Unit {0})
  enqueue_scheduled_message priority message = do
    client.zadd (namespace <> scheduled_jobs_key) priority message
    pure tt

  unfoldable pub enqueue_retried_message :
      (priority : p.Float) (message : String) → Io s.client.Db (Unit {0})
  enqueue_retried_message priority message = do
    client.zadd (namespace <> retry_key) priority message
    pure tt

  -- What follows ZRangeByScore in DequeueScheduledMessage and in DequeueRetriedMessage.
  unfoldable pub take_due : (key : String) → List String → Io s.client.Db String
  take_due key [] = fail no_message
  take_due key (message ∷ _) = do
    removed ← client.zrem key message
    if removed == 0 then fail no_message else pure message

  unfoldable pub dequeue_scheduled_message : (priority : p.Float) → Io s.client.Db String
  unfolding take_due
  dequeue_scheduled_message priority = do
    messages ←
        client.zrangebyscore (namespace <> scheduled_jobs_key) "-inf" (p.format_float priority) 0 1
    take_due (namespace <> scheduled_jobs_key) messages

  unfoldable pub dequeue_retried_message : (priority : p.Float) → Io s.client.Db String
  unfolding take_due
  dequeue_retried_message priority = do
    messages ← client.zrangebyscore (namespace <> retry_key) "-inf" (p.format_float priority) 0 1
    take_due (namespace <> retry_key) messages

  unfoldable pub get_all_retries : Io s.client.Db Retries
  get_all_retries = do
    count ← try (client.zcard (namespace <> retry_key))
    jobs ← try (client.zrange (namespace <> retry_key) (pos 0) (negsuc 0))
    report_unless_nil (first_error (error_of count ∷ error_of jobs ∷ []))
    pure (record { retry_jobs = val_or [] jobs; total_retry_count = pos (val_or 0 count) })
