-- ===== src/Manager/Report.antt =====
-- manager.go, api_stats.go: what a manager reports of its jobs and of its store.
pub mod Jobs
use go_workers.Prelude.{
  ℕ, ◌+◌, String, ◌<>◌, Bool, true, false, Option, none, some, List, [], ◌∷◌, ◌++◌, map, length,
  if◌then◌else◌, str_eq,
}
use go_workers.Prelude.Int.{ℤ, pos, ◌+ℤ◌, wrap64}
use go_workers.Effect.{Error, Outcome, ok, err, panic, spin, Io, pure, fail, ◌>>=◌, ◌>>◌, lift}
use go_workers.External.Platform.{Platform}
use go_workers.Storage.Types.{Store, Heartbeat, WorkerHeartbeat}
use go_workers.Msg.{Msg, new_msg}
use go_workers.Job.{Env}
use go_workers.Worker.{TaskRunner, Worker, worker_messages}
use go_workers.Manager.State.{Manager, ManagerOptions}

pub record JobStatus (p : Platform) : Type 0 where
  pub message : Msg p
  pub started_at : ℤ

pub record ManagerStats (p : Platform) : Type 0 where
  pub name : String
  pub processed : ℤ
  pub failed : ℤ
  pub jobs : List (String × List (JobStatus p))
  pub enqueued : List (String × ℤ)
  pub retry_count : ℤ

module _ {A : Type 0} where
  -- `res[queue] = append(res[queue], messages...)`, on a map by its entries
  unfoldable pub append_at : String → List A → List (String × List A) → List (String × List A)
  append_at queue messages [] = (queue, messages) ∷ []
  append_at queue messages ((q, ms) ∷ rest) =
      let others = append_at queue messages rest in
      if str_eq q queue then (q, ms ++ messages) ∷ rest else (q, ms) ∷ others

-- `stats.Jobs[ns+queue]`
unfoldable pub job_statuses :
    {p : Platform} (ns : String) → List (String × List (Msg p)) → List (String × List (JobStatus p))
job_statuses ns [] = []
job_statuses ns ((q, ms) ∷ rest) =
    (ns <> q, map (λ (m : Msg _). record { message = m; started_at = m.started_at }) ms)
    ∷ job_statuses ns rest

module _ {p : Platform} (env : Env p) where
  unfoldable pub collect_messages :
      List (String × List (Msg p)) → List (Worker env) → List (String × List (Msg p))
  unfolding append_at worker_messages
  collect_messages res [] = res
  collect_messages res (w ∷ ws) =
      collect_messages (append_at w.queue (worker_messages env w) res) ws

  -- `inProgressMessages` of a manager
  unfoldable pub in_progress_messages : Manager env → List (String × List (Msg p))
  unfolding collect_messages
  in_progress_messages m = collect_messages [] m.workers

  unfoldable pub get_stats : Manager env → Io env.World (ManagerStats p)
  unfolding in_progress_messages job_statuses
  get_stats m = do
    let in_progress = in_progress_messages m
    stored ← env.store.get_all_stats (map (λ (e : String × List (Msg p)). e.0) in_progress)
    pure (record {
      name = m.opts.manager_display_name;
      processed = stored.processed;
      failed = stored.failed;
      jobs = job_statuses m.opts.namespace in_progress;
      enqueued = stored.enqueued;
      retry_count = stored.retry_count;
    })

  -- The loop of `GetRetries`.
  unfoldable pub parse_retries : List String → Outcome (List (Msg p))
  parse_retries [] = ok []
  parse_retries (r ∷ rs) =
      let rest = parse_retries rs in
      elim (new_msg {p = p} r) [
        | err e ↦ err e
        | panic q ↦ panic q
        | spin ↦ spin
        | ok m ↦ elim rest [ ok ms ↦ ok (m ∷ ms) | err e ↦ err e | panic q ↦ panic q | spin ↦ spin ]
      ]

  -- The page, its size and the text to match are not looked at.
  unfoldable pub get_retries :
      (page : ℕ) (page_size : ℤ) (query : String) → Io env.World (ℤ × List (Msg p))
  unfolding parse_retries
  get_retries page page_size query = do
    stored ← env.store.get_all_retries
    jobs ← lift (parse_retries stored.retry_jobs)
    pure (stored.total_retry_count, jobs)
