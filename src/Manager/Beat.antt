-- ===== src/Manager/Beat.antt =====
-- heartbeat.go: the heartbeat that a manager builds of its workers.
use go_workers.Prelude.{
  ℕ, ◌+◌, String, ◌<>◌, false, none, some, List, [], ◌∷◌, ◌++◌, map, length, if◌then◌else◌, str_eq,
}
use go_workers.Prelude.Int.{ℤ, pos, ◌+ℤ◌, wrap64}
use go_workers.Effect.{Outcome, ok, err, panic, spin}
use go_workers.External.Platform.{Platform}
use go_workers.Storage.Types.{Heartbeat, WorkerHeartbeat}
use go_workers.Job.{Env}
use go_workers.Worker.{TaskRunner, Worker, worker_messages}
use go_workers.Manager.State.{Manager}

-- What a heartbeat takes from the packages os and json.
pub record Host : Type 0 where
  pub hostname : Outcome String
  pub pid : ℤ
  pub format_int : ℤ → String
  pub marshal_info :
      (hostname : String) (started_at pid : ℤ) (tag : String) (concurrency : ℤ)
      (queues : List String) (identity : String)
      → Outcome String

module _ {p : Platform} {env : Env p} (host : Host) where
  -- `getHeartbeatID`
  unfoldable pub get_heartbeat_id : Manager env → Outcome String
  get_heartbeat_id m = elim host.hostname [
    | ok name ↦ ok (name <> (":" <> (host.format_int host.pid <> (":" <> m.process_nonce))))
    | err e ↦ err e
    | panic q ↦ panic q
    | spin ↦ spin
  ]

  -- The loops over the workers and their runners.
  unfoldable pub runner_heartbeats : Worker env → List (TaskRunner p) → List WorkerHeartbeat
  runner_heartbeats w [] = []
  runner_heartbeats w (r ∷ rs) =
      record {
        pid = host.pid;
        tid = r.tid;
        queue = w.queue;
        in_progress_queue = w.in_progress_queue;
      }
      ∷ runner_heartbeats w rs

  unfoldable pub workers_heartbeats : List (Worker env) → List WorkerHeartbeat
  unfolding runner_heartbeats
  workers_heartbeats [] = []
  workers_heartbeats (w ∷ ws) = runner_heartbeats w w.runners ++ workers_heartbeats ws

  unfoldable pub total_concurrency : List (Worker env) → ℤ
  total_concurrency [] = pos 0
  total_concurrency (w ∷ ws) = wrap64 (w.concurrency +ℤ total_concurrency ws)

  unfoldable pub total_busy : List (Worker env) → ℕ
  unfolding worker_messages
  total_busy [] = 0
  total_busy (w ∷ ws) = length (worker_messages env w) + total_busy ws

  -- `strings.ReplaceAll(m.opts.Namespace, ":", "")` is `tag_of`; the time is in seconds.
  unfoldable pub build_heartbeat :
      (tag_of : String → String) (started_at beat_time ttl : ℤ) → Manager env → Outcome Heartbeat
  unfolding get_heartbeat_id workers_heartbeats total_concurrency total_busy
  build_heartbeat tag_of started_at beat_time ttl m = elim host.hostname [
    | err e ↦ err e
    | panic q ↦ panic q
    | spin ↦ spin
    | ok name ↦ elim (get_heartbeat_id m) [
      | err e ↦ err e
      | panic q ↦ panic q
      | spin ↦ spin
      | ok identity ↦
          let shown =
            if str_eq m.opts.manager_display_name ""
            then name
            else name <> (":" <> m.opts.manager_display_name) in
          let tag = if str_eq m.opts.namespace "" then "default" else tag_of m.opts.namespace in
          let queues = map (λ (w : Worker env). w.queue) m.workers in
          elim (host.marshal_info shown started_at host.pid tag (total_concurrency m.workers) queues
            identity) [
              | err e ↦ err e
              | panic q ↦ panic q
              | spin ↦ spin
              | ok info ↦ ok (record {
                identity = identity;
                beat = beat_time;
                quiet = false;
                busy = pos (total_busy m.workers);
                rtt_us = pos 0;
                rss = pos 0;
                info = info;
                pid = host.pid;
                manager_priority = elim m.opts.manager_priority [ none ↦ pos 0 | some k ↦ k ];
                active_manager = m.active;
                ttl = ttl;
                worker_heartbeats = workers_heartbeats m.workers;
              })
            ]
    ]
  ]
