-- ===== src/Middleware/Stats.antt =====
-- middleware_stats.go: every job counts as processed or as failed.
pub mod Once
use go_workers.Prelude.{String, [], ◌∷◌}
use go_workers.Effect.{text, pure, fail, ◌>>=◌, ◌>>◌, value, failed, try, Io, recover, on_error}
use go_workers.External.Platform.{Platform}
use go_workers.Job.{Env, Frame, JobFunc, in_world, log}

module _ {p : Platform} (env : Env p) where
  -- A counter that cannot be written is only logged.
  unfoldable pub increment_stats : (metric : String) → Io (Frame env) (Unit {0})
  increment_stats metric = do
    r ← try (in_world env (env.store.increment_stats metric))
    elim r [ value u ↦ pure tt | failed e ↦ log env ("couldn't save stats:" ∷ text e ∷ []) ]

  unfoldable pub stats_middleware : (queue : String) → JobFunc env → JobFunc env
  unfolding increment_stats
  stats_middleware queue next =
      recover
        (on_error next (λ e. increment_stats "failed" >> fail e) >> increment_stats "processed")
        (λ e. increment_stats "failed" >> fail e)
