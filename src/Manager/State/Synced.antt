-- ===== src/Manager/State/Synced.antt =====
-- Activating a manager (manager.go): the manager and the fetchers of its workers agree.
use go_workers.Prelude.{
  ◌≡◌, refl, Bool, true, false, not, some, List, [], ◌∷◌, All, arith, inl, inr, ◌⊎◌,
}
use go_workers.Effect.{ok}
use go_workers.External.Platform.{Platform}
use go_workers.Job.{Env}
use go_workers.Worker.{SimpleFetcher, Worker, set_active}
use go_workers.Manager.State.{Manager, ActiveHook, set_fetchers, set_all, run_hooks, activate}

same_or_not : (a b : Bool) → (b ≡ a) ⊎ (b ≡ not a)
same_or_not true true = inl refl
same_or_not true false = inr refl
same_or_not false true = inr refl
same_or_not false false = inl refl

module _ {p : Platform} {env : Env p} where
  -- The worker has started, with a fetcher that is as active as said.
  abbrev pub Fetches : Bool → Worker env → Type 0
  Fetches active w = (f : SimpleFetcher) × (w.fetcher ≡ some f) × (f.is_active ≡ active)

  abbrev pub Synced : Manager env → Type 0
  Synced m = All (Fetches m.active) m.workers

  set_fetchers-All :
      (a b : Bool) (ws : List (Worker env))
      → All (Fetches b) ws
      → ((set_fetchers a ws).0 ≡ ok tt) × All (Fetches a) (set_fetchers a ws).1
  unfolding set_fetchers set_active
  set_fetchers-All a b [] h = (refl, tt)
  set_fetchers-All a b (w ∷ ws) ((f, e, k), h) =
      rw e
        (let rest = set_fetchers-All a b ws h in (rest.0, ((set_active a f, refl, refl), rest.1)))

  module _ (hooks : List (ActiveHook env)) (a : Bool) (m : Manager env) (w : env.World) where
    abbrev changed : Manager env
    changed = record m { active = a; workers = (set_fetchers a m.workers).1 }

    activate-same : m.active ≡ a → activate env hooks a (m, w) ≡ (ok tt, (m, w))
    unfolding activate
    activate-same e = ground arith

    activate-other :
        (set_fetchers a m.workers).0 ≡ ok tt
        → m.active ≡ not a
        → activate env hooks a (m, w) ≡ run_hooks env hooks a (not a) (changed, w)
    unfolding activate set_all
    activate-other o e = ground arith

    -- If every worker has started and is as active as its manager, then activating or deactivating
    -- leaves a manager and workers that are all as asked for, and runs the hooks with that change
    -- exactly if the manager was not so before.
    pub activate-Synced :
        Synced m
        → (m' : Manager env) × (m'.active ≡ a)
          × Synced m'
          × (((m.active ≡ a) × (activate env hooks a (m, w) ≡ (ok tt, (m', w))))
              ⊎ ((m.active ≡ not a)
                  × (activate env hooks a (m, w) ≡ run_hooks env hooks a (not a) (m', w))))
    activate-Synced h = elim (same_or_not a m.active) [
      | inl e ↦ (m, e, h, inl (e, activate-same e))
      | inr e ↦
          let all = set_fetchers-All a m.active m.workers h in
          (changed, refl, all.1, inr (e, activate-other all.0 e))
    ]
