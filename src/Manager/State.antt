-- ===== src/Manager/State.antt =====
-- manager.go: the state of a manager, its workers, its handlers and whether it is active.
pub mod Synced
use go_workers.Prelude.{
  ℕ, ◌+◌, String, ◌<>◌, Bool, true, false, not, ◌&&◌, ◌||◌, Option, none, some, List, [], ◌∷◌, ◌++◌,
  map, length, if◌then◌else◌, str_eq,
}
use go_workers.Prelude.Int.{ℤ, pos, ◌+ℤ◌, wrap64}
use go_workers.Effect.{
  Error, error, Panic, Outcome, ok, err, panic, spin, Io, pure, throw, ◌>>=◌, ◌>>◌, lift,
}
use go_workers.External.Platform.{Platform}
use go_workers.Storage.Types.{Heartbeat, WorkerHeartbeat}
use go_workers.Msg.{Msg, new_msg}
use go_workers.Job.{Env, JobFunc, RetriesExhaustedFunc}
use go_workers.Middleware.Chain.{MiddlewareFunc, Middlewares, build, default_middlewares}
use go_workers.Scheduled.{nil_dereference}
use go_workers.Worker.{TaskRunner, SimpleFetcher, Worker, new_worker, set_active, worker_messages}

-- What the manager reads of its options.
pub record ManagerOptions : Type 0 where
  pub namespace : String
  pub manager_display_name : String
  pub manager_start_inactive : Bool
  pub manager_priority : Option ℤ

pub record Manager {p : Platform} (env : Env p) : Type 0 where
  pub opts : ManagerOptions
  pub workers : List (Worker env)
  pub running : Bool
  pub active : Bool
  pub process_nonce : String
  pub retries_exhausted_handlers : List (RetriesExhaustedFunc env)

module _ {p : Platform} {env : Env p} where
  unfoldable pub new_manager : ManagerOptions → (process_nonce : String) → Manager env
  new_manager opts process_nonce = record {
    opts = opts;
    workers = [];
    running = false;
    active = not opts.manager_start_inactive;
    process_nonce = process_nonce;
    retries_exhausted_handlers = [];
  }

  -- The default middlewares if none are given.
  unfoldable pub chosen : Middlewares env → Middlewares env
  chosen [] = default_middlewares env
  chosen (mid ∷ mids) = mid ∷ mids

  unfoldable pub add_worker :
      (queue : String) (concurrency : ℤ) → JobFunc env → Middlewares env → Manager env → Manager env
  unfolding build new_worker chosen
  add_worker queue concurrency job mids m =
      let name = m.opts.namespace <> queue in
      let handler : List (RetriesExhaustedFunc env) → JobFunc env =
        λ handlers. build env (chosen mids) name handlers job in
      record m { workers = m.workers ++ new_worker env queue concurrency handler ∷ [] }

  unfoldable pub set_retries_exhausted_handlers :
      List (RetriesExhaustedFunc env) → Manager env → Manager env
  set_retries_exhausted_handlers handlers m = record m { retries_exhausted_handlers = handlers }

  unfoldable pub add_retries_exhausted_handlers :
      List (RetriesExhaustedFunc env) → Manager env → Manager env
  add_retries_exhausted_handlers handlers m = record m {
    retries_exhausted_handlers = m.retries_exhausted_handlers ++ handlers;
  }

  -- `for _, worker := range m.workers { worker.fetcher.SetActive(active) }`: a worker that has not
  -- started has a nil fetcher.
  unfoldable pub set_fetchers : Bool → List (Worker env) → Outcome (Unit {0}) × List (Worker env)
  unfolding set_active
  set_fetchers active [] = (ok tt, [])
  set_fetchers active (w ∷ ws) = elim w.fetcher [
    | none ↦ (panic nil_dereference, w ∷ ws)
    | some f ↦
        let (o, rest) = set_fetchers active ws in
        (o, record w { fetcher = some (set_active active f) } ∷ rest)
  ]

module _ {p : Platform} (env : Env p) where
  -- An AfterActiveChangeFunc, with the world that it changes.
  abbrev pub ActiveHook : Type 0
  ActiveHook = Bool → Bool → Io (Manager env × env.World) (Unit {0})

  unfoldable pub run_hooks : List ActiveHook → ActiveHook
  run_hooks [] activate deactivate = pure tt
  run_hooks (h ∷ hs) activate deactivate = h activate deactivate >> run_hooks hs activate deactivate

  unfoldable pub set_all : Bool → Io (Manager env × env.World) (Unit {0})
  unfolding set_fetchers
  set_all active (m, w) =
      let (o, workers) = set_fetchers active m.workers in
      (o, (record m { active = active; workers = workers }, w))

  -- `Active`
  unfoldable pub activate : List ActiveHook → Bool → Io (Manager env × env.World) (Unit {0})
  unfolding set_all run_hooks
  activate hooks active (m, w) =
      let activates = not m.active && active in
      let deactivates = m.active && not active in
      if activates || deactivates
      then (set_all active >> run_hooks hooks activates deactivates) (m, w)
      else (ok tt, (m, w))
