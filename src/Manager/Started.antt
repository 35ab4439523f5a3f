-- ===== src/Manager/Started.antt =====
-- manager.go, worker.go: how Run starts the workers of a manager.
use go_workers.Prelude.{
  ℕ, zero, suc, ◌<◌, ◌≡◌, refl, ap, ◌∙◌, String, Bool, true, false, not, ◌⊎◌, none, some, List, [],
  ◌∷◌, All, length, if◌then◌else◌,
}
use go_workers.Prelude.Int.{pos_part}
use go_workers.Effect.{ok, Io, pure, ◌>>=◌}
use go_workers.Effect.Inverse.{bind_ok}
use go_workers.External.Platform.{Platform}
use go_workers.Job.{Env}
use go_workers.Random.{Randomness, rand_seq, new_task_runner}
use go_workers.Random.Sequences.{rand_seq_lem}
use go_workers.Worker.{TaskRunner, SimpleFetcher, Worker, new_simple_fetcher, in_progress_queue}
use go_workers.Manager.State.Synced.{Fetches, Synced, activate-Synced}
use go_workers.Manager.State.{Manager, ActiveHook, run_hooks, activate}

module _ {p : Platform} (env : Env p) (random : Randomness env.World) where
  -- The loop over the concurrency of a worker
  unfoldable pub new_task_runners : ℕ → Io env.World (List (TaskRunner p))
  new_task_runners zero w = (ok [], w)
  new_task_runners (suc n) w =
      (do r ← new_task_runner random p; rs ← new_task_runners n; pure (r ∷ rs)) w

  -- `start` until it waits for its goroutines: a worker that runs is left alone. A concurrency
  -- below 1, on which make would panic, newWorker has replaced.
  unfoldable pub start_worker : SimpleFetcher → Worker env → Io env.World (Worker env)
  start_worker fetcher w = if w.running then pure w else (do
    runners ← new_task_runners (pos_part w.concurrency)
    pure (record w {
      running = true;
      fetcher = some fetcher;
      in_progress_queue = in_progress_queue fetcher;
      runners = runners;
    }))

  -- The loop of `Run`, one worker after the other
  unfoldable pub start_workers :
      (process_id : String) (active : Bool) → List (Worker env) → Io env.World (List (Worker env))
  start_workers process_id active [] w = (ok [], w)
  start_workers process_id active (x ∷ xs) w =
      (do
        y ← start_worker (new_simple_fetcher x.queue process_id active) x
        ys ← start_workers process_id active xs
        pure (y ∷ ys))
        w

  module _ (within : (n : ℕ) (w : env.World) → 0 < n → (random.intn n w).0 < n) where
    new_task_runners_lem :
        (n : ℕ) (w : env.World)
        → (rs : List (TaskRunner p)) × (v : env.World) × (new_task_runners n w ≡ (ok rs, v))
          × (length rs ≡ n)
    unfolding new_task_runners new_task_runner
    new_task_runners_lem zero w = ([], w, refl, refl)
    new_task_runners_lem (suc n) w =
        let tid = rand_seq_lem random within 3 w in
        let rest = new_task_runners_lem n tid.1 in
        let r : TaskRunner p = record { tid = tid.0; current_msg = none } in
        (
          r ∷ rest.0,
          rest.1,
          bind_ok (new_task_runner random p) (λ x. new_task_runners n >>= λ rs. pure (x ∷ rs)) w
                tid.1 r
                (bind_ok (rand_seq random 3) (λ t. pure (record { tid = t; current_msg = none })) w
                  tid.1 tid.0 tid.2)
              ∙ bind_ok (new_task_runners n) (λ rs. pure (r ∷ rs)) tid.1 rest.1 rest.0 rest.2,
          ap suc rest.3,
        )

    -- A worker that has as many runners as it was asked for, and fetches as said
    abbrev pub Started : Bool → Worker env → Type 0
    Started active w =
        Fetches active w × (w.running ≡ true) × (length w.runners ≡ pos_part w.concurrency)

    start_worker_lem :
        (process_id : String) (active : Bool) (x : Worker env) (w : env.World)
        → x.running ≡ false
        → (y : Worker env) × (v : env.World) × (start_worker
              (new_simple_fetcher x.queue process_id active)
              x
              w
            ≡ (ok y, v))
          × Started active y
    unfolding start_worker new_simple_fetcher
    start_worker_lem process_id active x w e =
        let fetcher = new_simple_fetcher x.queue process_id active in
        let all = new_task_runners_lem (pos_part x.concurrency) w in
        let y : Worker env = record x {
          running = true;
          fetcher = some fetcher;
          in_progress_queue = in_progress_queue fetcher;
          runners = all.0;
        } in
        (
          y,
          all.1,
          rw e (
              bind_ok (new_task_runners (pos_part x.concurrency))
                (λ (rs : List (TaskRunner p)). pure (record y { runners = rs })) w all.1 all.0
                all.2),
          ((fetcher, refl, refl), refl, all.3),
        )

    start_workers_lem :
        (process_id : String) (active : Bool) (xs : List (Worker env)) (w : env.World)
        → All (λ (x : Worker env). x.running ≡ false) xs
        → (ys : List (Worker env)) × (v : env.World) × (start_workers process_id active xs w
            ≡ (ok ys, v))
          × All (Started active) ys
    unfolding start_workers
    start_workers_lem process_id active [] w a = ([], w, refl, tt)
    start_workers_lem process_id active (x ∷ xs) w a =
        let one = start_worker_lem process_id active x w a.0 in
        let rest = start_workers_lem process_id active xs one.1 a.1 in
        let fetcher = new_simple_fetcher x.queue process_id active in
        (
          one.0 ∷ rest.0,
          rest.1,
          bind_ok (start_worker fetcher x)
                (λ y. start_workers process_id active xs >>= λ ys. pure (y ∷ ys)) w one.1 one.0
                one.2
              ∙ bind_ok (start_workers process_id active xs) (λ ys. pure (one.0 ∷ ys)) one.1 rest.1
                  rest.0 rest.2,
          (one.3, rest.3),
        )

    Started-Fetches :
        (active : Bool) (ys : List (Worker env)) → All (Started active) ys → All (Fetches active) ys
    Started-Fetches active [] a = tt
    Started-Fetches active (y ∷ ys) a = (a.0.0, Started-Fetches active ys a.1)

    pub start_workers-Synced :
        (process_id : String) (hooks : List (ActiveHook env)) (a : Bool) (m : Manager env)
        (w : env.World)
        → All (λ (x : Worker env). x.running ≡ false) m.workers
        → (ys : List (Worker env)) × (v : env.World) × (start_workers process_id m.active m.workers
              w
            ≡ (ok ys, v))
          × All (Started m.active) ys
          × (m' : Manager env) × (m'.active ≡ a)
          × Synced m'
          × (((m.active ≡ a)
                × (activate env hooks a (record m { workers = ys }, v) ≡ (ok tt, (m', v))))
              ⊎ ((m.active ≡ not a)
                  × (activate env hooks a (record m { workers = ys }, v)
                      ≡ run_hooks env hooks a (not a) (m', v))))
    start_workers-Synced process_id hooks a m w stopped =
        let all = start_workers_lem process_id m.active m.workers w stopped in
        let then_active =
          activate-Synced hooks a (record m { workers = all.0 }) all.1
            (Started-Fetches m.active all.0 all.3) in
        (all.0, all.1, all.2, all.3, then_active.0, then_active.1, then_active.2, then_active.3)
