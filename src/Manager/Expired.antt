-- ===== src/Manager/Expired.antt =====
-- manager.go: the messages in progress of processes whose heartbeat has expired go back.
pub mod Once
use go_workers.Prelude.{
  String, Bool, true, false, not, Option, none, some, List, [], ◌∷◌, ◌++◌, if◌then◌else◌,
}
use go_workers.Prelude.Int.{ℤ, ltb_ℤ}
use go_workers.Effect.{
  Error, redis_nil, Outcome, Io, pure, fail, ◌>>=◌, ◌>>◌, Seen, value, failed, try,
}
use go_workers.External.Platform.{Platform}
use go_workers.External.Keyspace.{contains}
use go_workers.Storage.Types.{Store, Heartbeat, WorkerHeartbeat}

pub record StaleMessageUpdate : Type 0 where
  pub queue : String
  pub in_progress_queue : String
  pub requeued_msgs : List String

-- An update only for a queue in progress that had messages.
abbrev pub add_update :
    WorkerHeartbeat → List String → List StaleMessageUpdate → List StaleMessageUpdate
add_update h [] rest = rest
add_update h (m ∷ ms) rest =
    record { queue = h.queue; in_progress_queue = h.in_progress_queue; requeued_msgs = m ∷ ms }
    ∷ rest

module _ {Score W : Type 0} (store : Store Score W) where
  -- `RequeueMessagesFromInProgressQueue` as a call that fails with its error
  unfoldable pub requeue : WorkerHeartbeat → Io W (List String)
  requeue h = do
    r ← store.requeue_messages_from_in_progress_queue h.in_progress_queue h.queue
    elim r.1 [ none ↦ pure r.0 | some e ↦ fail e ]

  -- The inner loop, with the queues in progress that it has requeued.
  unfoldable pub expire_workers :
      List WorkerHeartbeat → (requeued : List String) → Io W (List StaleMessageUpdate)
  unfolding requeue
  expire_workers [] requeued = pure []
  expire_workers (h ∷ hs) requeued =
      if contains h.in_progress_queue requeued then expire_workers hs requeued else (do
        msgs ← requeue h
        rest ← expire_workers hs (h.in_progress_queue ∷ requeued)
        pure (add_update h msgs rest))

  -- The outer loop.
  unfoldable pub expire_heartbeats :
      List Heartbeat → (expire_ts : ℤ) → Io W (List StaleMessageUpdate)
  unfolding expire_workers
  expire_heartbeats [] expire_ts = pure []
  expire_heartbeats (h ∷ hs) expire_ts =
      if ltb_ℤ expire_ts h.beat then expire_heartbeats hs expire_ts else (do
        updates ← expire_workers h.worker_heartbeats []
        store.remove_heartbeat h.identity
        rest ← expire_heartbeats hs expire_ts
        pure (updates ++ rest))

  unfoldable pub handle_all_expired_heartbeats : (expire_ts : ℤ) → Io W (List StaleMessageUpdate)
  unfolding expire_heartbeats
  handle_all_expired_heartbeats expire_ts = do
    r ← try store.get_all_heartbeats
    elim r [
      | value heartbeats ↦ expire_heartbeats heartbeats expire_ts
      | failed redis_nil ↦ pure []
      | failed e ↦ fail e
    ]
