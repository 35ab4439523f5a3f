-- ===== src/Middleware/Chain.antt =====
-- middleware.go: middlewares as functions on jobs, and the pipeline that they build.
use go_workers.Prelude.{ℕ, zero, suc, String, none, some, List, [], ◌∷◌, ◌++◌, length, get_elem?}
use go_workers.External.Platform.{Platform}
use go_workers.Job.{Env, JobFunc, RetriesExhaustedFunc}
use go_workers.Middleware.Logging.{log_middleware}
use go_workers.Middleware.Retry.{retry_middleware}
use go_workers.Middleware.Stats.{stats_middleware}

module _ {p : Platform} (env : Env p) where
  -- What a middleware reads of its manager are the handlers of exhausted retries.
  abbrev pub MiddlewareFunc : Type 0
  MiddlewareFunc =
      (queue : String) (handlers : List (RetriesExhaustedFunc env)) → JobFunc env → JobFunc env

  abbrev pub Middlewares : Type 0
  Middlewares = List MiddlewareFunc

  unfoldable pub append : Middlewares → MiddlewareFunc → Middlewares
  append m mid = m ++ mid ∷ []

  unfoldable pub prepend : Middlewares → MiddlewareFunc → Middlewares
  prepend m mid = (mid ∷ []) ++ m

  -- The loop `for i := n - 1; i >= 0; i--`.
  unfoldable pub build_from :
      Middlewares
      → ℕ
      → (queue : String) → List (RetriesExhaustedFunc env)
      → JobFunc env
      → JobFunc env
  build_from m zero queue handlers final = final
  build_from m (suc i) queue handlers final =
      build_from m i queue handlers
        (elim (get_elem? m i) [ none ↦ final | some mid ↦ mid queue handlers final ])

  unfoldable pub build :
      Middlewares → (queue : String) → List (RetriesExhaustedFunc env) → JobFunc env → JobFunc env
  unfolding build_from
  build m queue handlers final = build_from m (length m) queue handlers final

  abbrev pub default_middlewares : Middlewares
  default_middlewares =
      (λ queue handlers. log_middleware env queue)
      ∷ (λ queue handlers. retry_middleware env handlers queue)
      ∷ (λ queue handlers. stats_middleware env queue)
      ∷ []

  abbrev pub nop_middleware : MiddlewareFunc
  nop_middleware queue handlers final = final
