-- ===== src/Worker/System/Kept.antt =====
-- What a worker holds is in its queue in progress (worker.go, fetcher.go, task_runner.go).
use go_workers.Prelude.{
  ◌≤◌, ◌≡◌, ◌≢◌, refl, sym, ap, ◌∙◌, String, Bool, true, false, List, [], ◌∷◌, All, arith,
  if◌then◌else◌,
}
use go_workers.External.Platform.{Platform}
use go_workers.Storage.Laws.{StoreLaws}
use go_workers.Storage.Spec.{Jobs}
use go_workers.Job.{Env, JobFunc}
use go_workers.Worker.{SimpleFetcher}
use go_workers.Worker.Effects.{in_progress, listed_held}
use go_workers.Worker.System.{Runner, Fetching, Polling, System, Move, Step, Reach, begun}
use go_workers.Worker.System.Inactive.{Resting}
use go_workers.Worker.System.Counts.{
  count, fetch_weight, poll_weight, runners_weight, Swap-weight, held,
}
use go_workers.Worker.System.Bounds.{
  Surroundings, stock, ran, finished, sent_bound, skipped_bound, fetched_bound, unfetched_bound,
  work_weight,
}

module _ {p : Platform} (env : Env p) (handler : JobFunc env) (f : SimpleFetcher)
    (jobs : env.World → Jobs p.Float) (laws : StoreLaws p.ltf env.store jobs)
    (around : Surroundings env handler f jobs) where
  -- What is held is in the queue in progress, as often; and nothing is before the fetcher starts.
  pub record Kept (s : System env) : Type 0 where
    pub bound : (x : String) → held x s ≤ stock env handler f jobs laws around x s.world
    pub fresh :
        s.fetch ≡ Fetching.starting
        → (s.poll ≡ Polling.absent) × ((x : String) → runners_weight x s.runners ≡ 0)

  polled :
      (x : String) (b : Bool) (g h : Polling p)
      → poll_weight x g ≡ 0
      → poll_weight x h ≡ 0
      → poll_weight x (if b then g else h) ≡ 0
  polled x true g h a c = a
  polled x false g h a c = c

  not_polled :
      {s : System env} {g : Polling p} {A : Type 0}
      → Kept s
      → s.poll ≡ g
      → g ≢ Polling.absent
      → s.fetch ≡ Fetching.starting
      → A
  not_polled k e h st = absurd (h (sym e ∙ (k.fresh st).0))

  Move-Kept : {s t : System env} → Move env handler f s t → Kept s → Kept t
  Move-Kept {s} (Move.starts_inactive e _ q) k =
      rw q
        (record { bound = λ x. omega (arith, k.bound x, ap (fetch_weight x) e); fresh = λ h. cc h })
  Move-Kept {s} (Move.lists_old ms w e _ l q) k = rw q (record {
    bound = λ x. omega (
      arith,
      (listed_held env f jobs laws around.quiet s.world w ms x l).0,
      ap (poll_weight x) (k.fresh e).0,
      (k.fresh e).1 x,
    );
    fresh = λ h. cc h;
  })
  Move-Kept {s} (Move.sends_old raw rest m w rs e _ l q) k = rw q (record {
    bound = λ x. sent_bound env handler f jobs laws around s raw rest m w x (k.bound x) e l;
    fresh = λ h. cc h;
  })
  Move-Kept {s} (Move.skips_old raw rest w rs e _ l q) k = rw q (record {
    bound = λ x. skipped_bound env handler f jobs laws around s raw rest w x (k.bound x) e l;
    fresh = λ h. cc h;
  })
  Move-Kept {s} (Move.hands_old m rest rs e sw q) k = rw q (record {
    bound = λ x. omega (arith, k.bound x, ap (fetch_weight x) e, Swap-weight x sw);
    fresh = λ h. cc h;
  })
  Move-Kept {s} (Move.serves e q) k =
      rw q
        (record { bound = λ x. omega (arith, k.bound x, ap (fetch_weight x) e); fresh = λ h. cc h })
  Move-Kept {s} (Move.checks e q) k = rw q (record {
    bound =
        λ x. omega (arith, k.bound x, polled x s.closed Polling.ended Polling.waiting refl refl);
    fresh = λ h. not_polled k e (λ d. cc d) h;
  })
  Move-Kept {s} (Move.hears rs e _ q) k = rw q (record {
    bound = λ x.
        omega (arith, k.bound x, polled x s.active Polling.fetching Polling.checking refl refl);
    fresh = λ h. not_polled k e (λ d. cc d) h;
  })
  Move-Kept {s} (Move.fetches m w e l q) k = rw q (record {
    bound = λ x. fetched_bound env handler f jobs laws around s m w x (k.bound x) e l;
    fresh = λ h. not_polled k e (λ d. cc d) h;
  })
  Move-Kept {s} (Move.fetches_nothing w e l q) k = rw q (record {
    bound = λ x. unfetched_bound env handler f jobs laws around s w x (k.bound x) e l;
    fresh = λ h. not_polled k e (λ d. cc d) h;
  })
  Move-Kept {s} (Move.hands m rs e sw q) k = rw q (record {
    bound = λ x. omega (arith, k.bound x, ap (poll_weight x) e, Swap-weight x sw);
    fresh = λ h. not_polled k e (λ d. cc d) h;
  })
  Move-Kept {s} (Move.works m o after rs e _ sw q) k = rw q (record {
    bound = λ x. omega (
      arith,
      k.bound x,
      work_weight env handler f jobs laws around s m o after rs x e sw,
      ap (count x) (ran env handler f jobs laws around m s.world o after e).0,
    );
    fresh = λ h. (
      (k.fresh h).0,
      λ x. work_weight env handler f jobs laws around s m o after rs x e sw ∙ (k.fresh h).1 x,
    );
  })
  Move-Kept {s} (Move.finishes m rs _ sw q) k = rw q (record {
    bound = λ x.
        omega
          (arith, k.bound x, Swap-weight x sw, finished env handler f jobs laws around m s.world x);
    fresh = λ h. ((k.fresh h).0, λ x. omega (arith, (k.fresh h).1 x, Swap-weight x sw));
  })
  Move-Kept {s} (Move.exits rs _ sw q) k = rw q (record {
    bound = λ x. omega (arith, k.bound x, Swap-weight x sw);
    fresh = λ h. ((k.fresh h).0, λ x. omega (arith, (k.fresh h).1 x, Swap-weight x sw));
  })
  Move-Kept {s} (Move.is_stopped _ _ q) k =
      rw q (record { bound = λ x. k.bound x; fresh = λ h. k.fresh h })
  Move-Kept {s} (Move.closes _ _ q) k =
      rw q (record { bound = λ x. k.bound x; fresh = λ h. k.fresh h })
  Move-Kept {s} (Move.tells _ _ q) k =
      rw q (record { bound = λ x. k.bound x; fresh = λ h. k.fresh h })
  Move-Kept {s} (Move.leaves _ _ q) k =
      rw q (record { bound = λ x. k.bound x; fresh = λ h. k.fresh h })
  Move-Kept {s} (Move.goes _ _ q) k =
      rw q (record { bound = λ x. k.bound x; fresh = λ h. k.fresh h })
  Move-Kept {s} (Move.closes_inactive _ e q) k =
      rw q
        (record { bound = λ x. omega (arith, k.bound x, ap (fetch_weight x) e); fresh = λ h. cc h })

  Step-Kept : {s t : System env} → Step env handler f s t → Kept s → Kept t
  Step-Kept (Step.moves m) k = Move-Kept m k
  Step-Kept (Step.quits _ _ q) k = rw q (record { bound = k.bound; fresh = k.fresh })
  Step-Kept (Step.activates b q) k = rw q (record { bound = k.bound; fresh = k.fresh })

  Resting-weight : (x : String) (rs : List (Runner p)) → All Resting rs → runners_weight x rs ≡ 0
  Resting-weight x [] h = refl
  Resting-weight x (Runner.idle ∷ rs) (h, hs) = omega (arith, Resting-weight x rs hs)
  Resting-weight x (Runner.working m ∷ rs) (h, hs) = absurd h
  Resting-weight x (Runner.finishing m ∷ rs) (h, hs) = absurd h
  Resting-weight x (Runner.exited ∷ rs) (h, hs) = omega (arith, Resting-weight x rs hs)

  begun-Kept :
      (runners : List (Runner p)) (active : Bool) (w : env.World)
      → All Resting runners
      → Kept (begun env handler f runners active w)
  begun-Kept runners active w h = record {
    bound = λ x. omega (arith, Resting-weight x runners h);
    fresh = λ e. (refl, λ x. Resting-weight x runners h);
  }

  Reach-Kept : {s t : System env} → Kept s → Reach env handler f s t → Kept t
  Reach-Kept k Reach.stays = k
  Reach-Kept k (Reach.steps r m) = Step-Kept m (Reach-Kept k r)

  -- Whatever steps a worker takes after it has started with runners at rest, whoever stops it or
  -- changes whether it is active, and whatever the store refuses: every text that it holds, in
  -- messages of an earlier run still to be sent, in one that is fetched, or with its runners, is at
  -- least as often in its queue in progress. This is for a store that keeps its contract, a clock
  -- and a log that leave its jobs alone, and a job that leaves the queue in progress and the text of
  -- its message alone.
  pub never_lost :
      {s : System env} (runners : List (Runner p)) (active : Bool) (w : env.World)
      → All Resting runners
      → Reach env handler f (begun env handler f runners active w) s
      → (x : String) → held x s ≤ count x (in_progress env f jobs s.world)
  never_lost runners active w h r x = (Reach-Kept (begun-Kept runners active w h) r).bound x
