-- ===== src/Storage/RedisStore/Queues.antt =====
-- storage/redis.go: the operations on the lists of waiting and in-progress messages.
use go_workers.Prelude.{ℕ, zero, suc, String, ◌<>◌, Option, none, some, List, [], ◌∷◌, ◌++◌}
use go_workers.Prelude.Int.{pos, negsuc}
use go_workers.Effect.{
  Error, redis_nil, no_message, Io, unfinished, pure, fail, ◌>>=◌, ◌>>◌, Seen, value, failed, try,
}
use go_workers.External.Platform.{Platform}
use go_workers.Storage.Keys.{get_queue_name}
use go_workers.Storage.Client.{RedisStore}

module _ {p : Platform} (s : RedisStore p) where
  open s use {namespace, client}

  -- An empty queue is no error of the client; either way the call sleeps for a second.
  dequeued : Seen String → Io s.client.Db String
  dequeued (value message) = pure message
  dequeued (failed redis_nil) = fail no_message
  dequeued (failed e) = fail e

  unfoldable pub dequeue_message :
      (queue inprogress_queue : String) (timeout : ℕ) → Io s.client.Db String
  unfolding dequeued
  dequeue_message queue inprogress_queue timeout = do
    r ← try (
        client.brpoplpush (get_queue_name namespace queue)
          (get_queue_name namespace inprogress_queue) timeout)
    dequeued r

  -- The loop, with the messages requeued so far.
  unfoldable pub requeue_loop :
      ℕ
      → (inprogress_queue queue : String) → List String
      → Io s.client.Db (List String × Option Error)
  requeue_loop zero inprogress_queue queue requeued = unfinished
  requeue_loop (suc n) inprogress_queue queue requeued = do
    r ← try (
        client.brpoplpush (get_queue_name namespace inprogress_queue)
          (get_queue_name namespace queue) 1)
    elim r [
      | value msg ↦ requeue_loop n inprogress_queue queue (requeued ++ msg ∷ [])
      | failed redis_nil ↦ pure (requeued, none)
      | failed e ↦ pure (requeued, some e)
    ]

  unfoldable pub requeue_messages_from_in_progress_queue :
      (inprogress_queue queue : String) → Io s.client.Db (List String × Option Error)
  unfolding requeue_loop
  requeue_messages_from_in_progress_queue inprogress_queue queue =
      requeue_loop s.fuel inprogress_queue queue []

  unfoldable pub enqueue_message_now : (queue message : String) → Io s.client.Db (Unit {0})
  enqueue_message_now queue message = do
    client.lpush (namespace <> ("queue:" <> queue)) message
    pure tt

  unfoldable pub acknowledge_message : (queue message : String) → Io s.client.Db (Unit {0})
  acknowledge_message queue message = do
    client.lrem (get_queue_name namespace queue) (negsuc 0) message
    pure tt

  unfoldable pub create_queue : (queue : String) → Io s.client.Db (Unit {0})
  create_queue queue = do client.sadd (namespace <> "queues") queue; pure tt

  unfoldable pub list_messages : (queue : String) → Io s.client.Db (List String)
  list_messages queue = client.lrange (get_queue_name namespace queue) (pos 0) (negsuc 0)
