-- ===== src/Storage/Keys.antt =====
-- storage/keys.go, and the keys that storage/redis.go builds under its namespace.
use text.Mathlib.TextLemmas.{append_cancel_left}
use go_workers.Prelude.{String, ◌<>◌, ◌≡◌, arith, false, str_eq, eq_iff}
use go_workers.Prelude.Int.{ℤ}
use go_workers.Storage.Types.{retry_key, scheduled_jobs_key}

unfoldable pub get_manager_key : (namespace heartbeat_id : String) → String
get_manager_key namespace heartbeat_id = namespace <> heartbeat_id

abbrev heartbeat_work_key : String
heartbeat_work_key = ":work"

unfoldable pub get_workers_key : (manager_key : String) → String
get_workers_key manager_key = manager_key <> ":work"

unfoldable pub get_processes_key : (namespace : String) → String
get_processes_key namespace = namespace <> "processes"

-- fmt.Sprintf("%d-%s", pid, tid)
unfoldable pub get_worker_id : (format_int : ℤ → String) (pid : ℤ) (tid : String) → String
get_worker_id format_int pid tid = format_int pid <> ("-" <> tid)

-- `getQueueName`
unfoldable pub get_queue_name : (namespace queue : String) → String
get_queue_name namespace queue = namespace <> ("queue:" <> queue)

-- Different queues have different keys.
pub get_queue_name_injective : (ns a b : String) → get_queue_name ns a ≡ get_queue_name ns b → a ≡ b
unfolding get_queue_name
get_queue_name_injective ns a b e =
    append_cancel_left "queue:" a b (append_cancel_left ns ("queue:" <> a) ("queue:" <> b) e)

pub str_eq-get_queue_name :
    (ns a b : String) → str_eq (get_queue_name ns a) (get_queue_name ns b) ≡ str_eq a b
str_eq-get_queue_name ns a b = ground (
  arith,
  eq_iff (get_queue_name ns a) (get_queue_name ns b),
  eq_iff a b,
  get_queue_name_injective ns a b,
)

pub str_eq-cancel_left : (ns a b : String) → str_eq (ns <> a) (ns <> b) ≡ str_eq a b
str_eq-cancel_left ns a b =
    ground (arith, eq_iff (ns <> a) (ns <> b), eq_iff a b, append_cancel_left ns a b)

-- The two sorted sets have different keys.
pub retry_key-ne-scheduled :
    (ns : String) → str_eq (ns <> retry_key) (ns <> scheduled_jobs_key) ≡ false
retry_key-ne-scheduled ns = rw (str_eq-cancel_left ns retry_key scheduled_jobs_key)

pub scheduled-ne-retry_key :
    (ns : String) → str_eq (ns <> scheduled_jobs_key) (ns <> retry_key) ≡ false
scheduled-ne-retry_key ns = rw (str_eq-cancel_left ns scheduled_jobs_key retry_key)
