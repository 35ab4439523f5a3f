-- ===== src/Storage/Instance.antt =====
-- The store on Redis as a Store: NewRedisStore of storage/redis.go, and its contract.
use go_workers.Prelude.{String}
use go_workers.Effect.{Acts}
use go_workers.External.Platform.{Platform}
use go_workers.External.Redis.{Documented}
use go_workers.Storage.Types.{Store}
use go_workers.Storage.Client.{RedisStore}
use go_workers.Storage.RedisStore.Queues.{
  dequeue_message, requeue_messages_from_in_progress_queue, enqueue_message_now,
  acknowledge_message, create_queue, list_messages,
}
use go_workers.Storage.RedisStore.Sorted.{
  enqueue_message, enqueue_scheduled_message, enqueue_retried_message, dequeue_scheduled_message,
  dequeue_retried_message, get_all_retries,
}
use go_workers.Storage.RedisStore.Counters.{increment_stats, get_all_stats, get_time}
use go_workers.Storage.RedisStore.Beats.{get_all_heartbeats, send_heartbeat, remove_heartbeat}
use go_workers.Storage.Laws.{StoreLaws}
use go_workers.Storage.Refinement.{
  jobs, enqueue_message_now-Acts, list_messages-Acts, enqueue_scheduled_message-Acts,
  acknowledge_message-Acts, enqueue_retried_message-Acts, create_queue-Acts, dequeue_message-Acts,
}
use go_workers.Storage.Listed.{
  prioritized, put_in_order, get_all_retries-Acts, enqueue_message-Acts,
}
use go_workers.Storage.Due.{dequeue_scheduled_message-Acts, dequeue_retried_message-Acts}

abbrev pub redis_store : {p : Platform} (s : RedisStore p) → Store p.Float s.client.Db
redis_store s = record {
  create_queue = create_queue s;
  list_messages = list_messages s;
  acknowledge_message = acknowledge_message s;
  enqueue_message = enqueue_message s;
  enqueue_message_now = enqueue_message_now s;
  dequeue_message = dequeue_message s;
  requeue_messages_from_in_progress_queue = requeue_messages_from_in_progress_queue s;
  enqueue_scheduled_message = enqueue_scheduled_message s;
  dequeue_scheduled_message = dequeue_scheduled_message s;
  enqueue_retried_message = enqueue_retried_message s;
  dequeue_retried_message = dequeue_retried_message s;
  increment_stats = increment_stats s;
  get_all_stats = get_all_stats s;
  get_all_heartbeats = get_all_heartbeats s;
  send_heartbeat = send_heartbeat s;
  remove_heartbeat = remove_heartbeat s;
  get_all_retries = get_all_retries s;
  get_time = get_time s;
}

-- The contract of a store, and beside it that EnqueueMessage puts a message into the sorted set
-- under the key of its queue and leaves the lists and the sets alone.
abbrev pub JobLaws : {p : Platform} (s : RedisStore p) → Documented s.client → Type 0
JobLaws {p} s d =
    StoreLaws p.ltf (redis_store s) (jobs s d)
    × ((q : String) (t : p.Float) (m : String)
        → Acts (prioritized s d q) (put_in_order p.ltf t m) ((redis_store s).enqueue_message q t m))

-- The store on Redis keeps the contract of a store: under the documented behaviour of Redis every
-- operation on jobs, but for the requeueing of messages in progress, does what its specification
-- says of the namespace's queues and sorted sets, or reports an error that is not redis.Nil, with
-- all of the operation done or nothing.
pub redis_store-StoreLaws :
    {p : Platform} (s : RedisStore p) (d : Documented s.client) → JobLaws s d
redis_store-StoreLaws s d = (
  record {
    enqueue_now = enqueue_message_now-Acts s d;
    dequeue = dequeue_message-Acts s d;
    acknowledge = acknowledge_message-Acts s d;
    list = list_messages-Acts s d;
    create = create_queue-Acts s d;
    schedule = enqueue_scheduled_message-Acts s d;
    retry = enqueue_retried_message-Acts s d;
    due_scheduled = dequeue_scheduled_message-Acts s d;
    due_retried = dequeue_retried_message-Acts s d;
    all_retries = get_all_retries-Acts s d;
  },
  enqueue_message-Acts s d,
)
