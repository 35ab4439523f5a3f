-- ===== src/Middleware/Stats/Once.antt =====
-- Every job counts once (StatsMiddleware of middleware_stats.go).
use go_workers.Prelude.{◌≡◌, refl, String, [], ◌∷◌, inl, inr, ◌⊎◌, arith}
use go_workers.Effect.{Error, text, recovered, Outcome, ok, err, panic, spin}
use go_workers.External.Platform.{Platform}
use go_workers.Job.{Env, Frame, JobFunc}
use go_workers.Middleware.Stats.{increment_stats, stats_middleware}

module _ {p : Platform} (env : Env p) (queue : String) (next : JobFunc env)
    (answers : (metric : String) (w : env.World)
      → ((env.store.increment_stats metric w).0 ≡ ok tt)
        ⊎ ((x : Error) × ((env.store.increment_stats metric w).0 ≡ err x)))
    (f : Frame env) where
  -- The store is asked once to count, and what it cannot count is logged.
  abbrev pub asked : String → Outcome (Unit {0}) × env.World
  asked metric = env.store.increment_stats metric (next f).1.world

  abbrev log_of : Outcome (Unit {0}) → env.World → env.World
  log_of (err x) w = env.println ("couldn't save stats:" ∷ text x ∷ []) w
  log_of o w = w

  abbrev pub counting : String → Frame env
  counting metric = record (next f).1 { world = log_of (asked metric).0 (asked metric).1 }

  -- The job's own end, and the one count that goes with it.
  abbrev pub counted_end : Outcome (Unit {0}) → Outcome (Unit {0}) × Frame env
  counted_end (ok u) = (ok tt, counting "processed")
  counted_end (err e) = (err e, counting "failed")
  counted_end (panic q) = (err (recovered q), counting "failed")
  counted_end spin = (spin, (next f).1)

  settles : (metric : String) → increment_stats env metric (next f).1 ≡ (ok tt, counting metric)
  unfolding increment_stats
  settles metric = elim (answers metric (next f).1.world) [
    | inl o ↦ ground arith
    | inr (x, o) ↦ ground arith
  ]

  ends :
      (o : Outcome (Unit {0})) → (next f).0 ≡ o → stats_middleware env queue next f ≡ counted_end o
  unfolding stats_middleware
  ends (ok u) h = ground (arith, settles "processed")
  ends (err e) h = ground (arith, settles "failed")
  ends (panic q) h = ground (arith, settles "failed")
  ends spin h = ground arith

  -- With a store that answers: a job that returns without an error is counted by the store once as
  -- processed, and one that fails or panics once as failed, and then it ends with that error. What
  -- the store cannot count is logged.
  pub counts_once : stats_middleware env queue next f ≡ counted_end (next f).0
  counts_once = ends (next f).0 refl
