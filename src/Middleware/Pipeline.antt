-- ===== src/Middleware/Pipeline.antt =====
-- The pipeline of middlewares (middleware.go): its order, and what the default one promises.
use mathlib.Core.List.{foldr, foldr-append}
use go_workers.Prelude.{
  ℕ, zero, suc, ◌≡◌, ◌≢◌, refl, sym, ap, ◌∙◌, String, none, some, List, [], ◌∷◌, ◌++◌, length,
  get_elem?, arith,
}
use go_workers.Effect.{Panic, panic}
use go_workers.External.Platform.{Platform}
use go_workers.Msg.{args}
use go_workers.Job.{Env, Frame, JobFunc, RetriesExhaustedFunc}
use go_workers.Middleware.Logging.{log_process_error, log_args, log_middleware}
use go_workers.Middleware.Chain.{
  MiddlewareFunc, Middlewares, append, prepend, build_from, build, default_middlewares,
}

module _ {p : Platform} (env : Env p) (queue : String)
    (handlers : List (RetriesExhaustedFunc env)) where
  abbrev wrap : MiddlewareFunc env → JobFunc env → JobFunc env
  wrap mid next = mid queue handlers next

  build_from-cons :
      (x : MiddlewareFunc env) (m : Middlewares env) (n : ℕ) (final : JobFunc env)
      → build_from env (x ∷ m) (suc n) queue handlers final
        ≡ wrap x (build_from env m n queue handlers final)
  unfolding build_from
  build_from-cons x m zero final = refl
  build_from-cons x m (suc n) final =
      build_from-cons x m n (elim (get_elem? m n) [ none ↦ final | some mid ↦ wrap mid final ])

  build-foldr :
      (m : Middlewares env) (final : JobFunc env)
      → build env m queue handlers final ≡ foldr wrap final m
  unfolding build build_from
  build-foldr [] final = refl
  build-foldr (x ∷ m) final =
      build_from-cons x m (length m) final ∙ ap (wrap x) (build-foldr m final)

  -- The first middleware is the outermost: the pipeline is the job wrapped from the last one to
  -- the first, a middleware appended wraps the job itself, and one prepended wraps everything.
  pub build-order :
      (m : Middlewares env) (mid : MiddlewareFunc env) (final : JobFunc env)
      → (build env m queue handlers final ≡ foldr (λ mid' next. mid' queue handlers next) final m)
        × (build env (append env m mid) queue handlers final
            ≡ build env m queue handlers (mid queue handlers final))
        × (build env (prepend env m mid) queue handlers final
            ≡ mid queue handlers (build env m queue handlers final))
  unfolding append prepend
  build-order m mid final = (
    build-foldr m final,
    build-foldr (m ++ mid ∷ []) final
        ∙ foldr-append wrap final m (mid ∷ [])
        ∙ sym (build-foldr m (wrap mid final)),
    build-foldr (mid ∷ m) final ∙ ap (wrap mid) (sym (build-foldr m final)),
  )

  log-never-panics :
      (next : JobFunc env) (f : Frame env) (json : p.Json) (x : Panic)
      → args f.message ≡ some json
      → (log_middleware env queue next f).0 ≢ panic x
  unfolding log_middleware log_process_error log_args
  log-never-panics next f json x a h = ground (arith, a)

  -- Whatever the job and the handlers do, a job with arguments under the default pipeline does not panic.
  default_never_panics :
      (job : JobFunc env) (f : Frame env) (json : p.Json) (x : Panic)
      → args f.message ≡ some json
      → (build env (default_middlewares env) queue handlers job f).0 ≢ panic x
  default_never_panics job f json x a =
      rw (build-foldr (default_middlewares env) job) (log-never-panics _ f json x a)
