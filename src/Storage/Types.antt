-- ===== src/Storage/Types.antt =====
-- storage/storage.go: the records of the package and the interface Store.
use go_workers.Prelude.{ℕ, String, Bool, Option, List}
use go_workers.Prelude.Int.{ℤ}
use go_workers.Effect.{Io, Error}

abbrev pub retry_key : String
retry_key = "goretry"

abbrev pub scheduled_jobs_key : String
scheduled_jobs_key = "schedule"

-- A Go map from strings, by its entries: the first entry of a key is its value.
pub record Stats : Type 0 where
  pub processed : ℤ
  pub failed : ℤ
  pub retry_count : ℤ
  pub enqueued : List (String × ℤ)

pub record Retries : Type 0 where
  pub total_retry_count : ℤ
  pub retry_jobs : List String

pub record WorkerHeartbeat : Type 0 where
  pub pid : ℤ
  pub tid : String
  pub queue : String
  pub in_progress_queue : String

pub record Heartbeat : Type 0 where
  pub identity : String
  pub beat : ℤ
  pub quiet : Bool
  pub busy : ℤ
  pub rtt_us : ℤ
  pub rss : ℤ
  pub info : String
  pub pid : ℤ
  pub manager_priority : ℤ
  pub active_manager : Bool
  pub ttl : ℤ
  pub worker_heartbeats : List WorkerHeartbeat

-- The interface Store over a world `W`; `Score` is float64, and contexts are left out.
pub record Store (Score W : Type 0) : Type 0 where
  pub create_queue : (queue : String) → Io W (Unit {0})
  pub list_messages : (queue : String) → Io W (List String)
  pub acknowledge_message : (queue message : String) → Io W (Unit {0})
  pub enqueue_message : (queue : String) (priority : Score) (message : String) → Io W (Unit {0})
  pub enqueue_message_now : (queue message : String) → Io W (Unit {0})
  pub dequeue_message : (queue inprogress_queue : String) (timeout : ℕ) → Io W String
  -- The messages requeued so far, and the error that stopped the loop.
  pub requeue_messages_from_in_progress_queue :
      (inprogress_queue queue : String) → Io W (List String × Option Error)
  pub enqueue_scheduled_message : (priority : Score) (message : String) → Io W (Unit {0})
  pub dequeue_scheduled_message : (priority : Score) → Io W String
  pub enqueue_retried_message : (priority : Score) (message : String) → Io W (Unit {0})
  pub dequeue_retried_message : (priority : Score) → Io W String
  pub increment_stats : (metric : String) → Io W (Unit {0})
  pub get_all_stats : (queues : List String) → Io W Stats
  pub get_all_heartbeats : Io W (List Heartbeat)
  pub send_heartbeat : Heartbeat → Io W (Unit {0})
  pub remove_heartbeat : (heartbeat_id : String) → Io W (Unit {0})
  pub get_all_retries : Io W Retries
  pub get_time : Io W ℤ
