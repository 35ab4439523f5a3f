-- ===== src/Manager/Created.antt =====
-- manager.go: how a manager comes from its options, with its hooks.
use go_workers.Prelude.{Bool, Option, true, false, none, some, List, [], ◌∷◌, ◌++◌, if◌then◌else◌}
use go_workers.Prelude.Int.{ℤ}
use go_workers.Effect.{error, err, Io, pure, ◌>>=◌, ◌>>◌, lift}
use go_workers.External.Platform.{Platform}
use go_workers.Job.{Env}
use go_workers.Options.{Options, process_options, process_options_with_redis_client}
use go_workers.Random.{Randomness, generate_process_nonce}
use go_workers.Producer.{Producer}
use go_workers.Manager.State.{Manager, ManagerOptions, ActiveHook, new_manager}

-- The options that the manager itself reads
abbrev pub manager_options : Options → ManagerOptions
manager_options o = record {
  namespace = o.namespace;
  manager_display_name = o.manager_display_name;
  manager_start_inactive = o.manager_start_inactive;
  manager_priority = elim o.heartbeat [
    | none ↦ none
    | some h ↦ elim h.prioritized_manager [ none ↦ none | some q ↦ some q.manager_priority ]
  ];
}

module _ {p : Platform} (env : Env p) (AfterHeartbeat : Type 0) where
  -- A manager with all its options and hooks. The hooks after a heartbeat are of any type here.
  pub record Configured : Type 0 where
    pub manager : Manager env
    pub options : Options
    -- the zero time before the first call of Run
    pub started_at : Option ℤ
    pub before_start_hooks : List (Io env.World (Unit {0}))
    pub during_drain_hooks : List (Io env.World (Unit {0}))
    pub after_active_change_hooks : List (ActiveHook env)
    pub after_heartbeat_hooks : List AfterHeartbeat

  unfoldable pub add_before_start_hooks : List (Io env.World (Unit {0})) → Configured → Configured
  add_before_start_hooks hooks m = record m { before_start_hooks = m.before_start_hooks ++ hooks }

  unfoldable pub add_during_drain_hooks : List (Io env.World (Unit {0})) → Configured → Configured
  add_during_drain_hooks hooks m = record m { during_drain_hooks = m.during_drain_hooks ++ hooks }

  unfoldable pub add_after_heartbeat_hooks : List AfterHeartbeat → Configured → Configured
  add_after_heartbeat_hooks hooks m = record m {
    after_heartbeat_hooks = m.after_heartbeat_hooks ++ hooks;
  }

  unfoldable pub add_after_active_change_hooks : List (ActiveHook env) → Configured → Configured
  add_after_active_change_hooks hooks m = record m {
    after_active_change_hooks = m.after_active_change_hooks ++ hooks;
  }

  -- `Heartbeat != nil && Heartbeat.PrioritizedManager != nil`
  abbrev pub is_prioritized : Options → Bool
  is_prioritized o = elim o.heartbeat [
    | none ↦ false
    | some h ↦ elim h.prioritized_manager [ none ↦ false | some q ↦ true ]
  ]

  module _ (random : Randomness env.World) (by_priority : AfterHeartbeat) where
    -- `newManager`, with the processed options
    unfoldable pub manager_of : Options → Io env.World Configured
    unfolding new_manager generate_process_nonce add_after_heartbeat_hooks
    manager_of options = do
      process_nonce ← generate_process_nonce random
      let made : Configured = record {
        manager = new_manager (manager_options options) process_nonce;
        options = options;
        started_at = none;
        before_start_hooks = [];
        during_drain_hooks = [];
        after_active_change_hooks = [];
        after_heartbeat_hooks = [];
      }
      pure (
          if is_prioritized options
          then add_after_heartbeat_hooks (by_priority ∷ []) made
          else made)

    -- `NewManager`
    unfoldable pub manager_with_options : Options → Io env.World Configured
    unfolding manager_of
    manager_with_options options = do
      processed ← lift (process_options options)
      manager_of processed

    unfoldable pub manager_with_redis_client : Options → (client : Bool) → Io env.World Configured
    unfolding manager_of
    manager_with_redis_client options client = do
      processed ← lift (process_options_with_redis_client client options)
      manager_of processed

  unfoldable pub producer : Configured → Producer
  producer m = record { opts = m.options }

  unfoldable pub run_each : List (Io env.World (Unit {0})) → Io env.World (Unit {0})
  run_each [] = pure tt
  run_each (h ∷ hs) = h >> run_each hs

  -- `Run` until it starts its goroutines, its deferred functions apart: the time is set even if the
  -- manager is already running.
  unfoldable pub begin_run : Io (Configured × env.World) (Unit {0})
  unfolding run_each
  begin_run (m, w) =
      let (now, v) = env.now w in
      let timed : Configured = record m { started_at = some now } in
      if m.manager.running
      then (err (error "manager already running"), (timed, v))
      else (let (o, u) = run_each m.before_start_hooks v in
          (o, (record timed { manager = record m.manager { running = true } }, u)))
