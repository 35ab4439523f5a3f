-- ===== src/Worker/System/Inactive.antt =====
-- A fetcher that starts inactive (Fetch of fetcher.go).
use go_workers.Prelude.{List, All}
use go_workers.External.Platform.{Platform}
use go_workers.Job.{Env, JobFunc}
use go_workers.Worker.{SimpleFetcher}
use go_workers.Worker.System.{Runner, Fetching, Polling, System, Swap, Move, Step, Reach}

-- No message is with the runner.
abbrev pub Resting : {p : Platform} → Runner p → Type 0
Resting Runner.idle = Unit
Resting Runner.exited = Unit
Resting _ = ⊥

-- `Fetch` waits to be stopped, or has been.
abbrev pub Dormant : {p : Platform} → Fetching p → Type 0
Dormant Fetching.inactive = Unit
Dormant Fetching.returned = Unit
Dormant _ = ⊥

abbrev pub Absent : {p : Platform} → Polling p → Type 0
Absent Polling.absent = Unit
Absent _ = ⊥

-- Nothing is fetched, and no message is with a goroutine of the worker.
pub record Asleep {p : Platform} {env : Env p} (s : System env) : Type 0 where
  pub runners : All Resting s.runners
  pub poll : Absent s.poll
  pub fetch : Dormant s.fetch

Swap-Resting :
    {p : Platform} {a b : Runner p} {rs rs' : List (Runner p)}
    → Swap a b rs rs'
    → All Resting rs
    → Resting a × (Resting b → All Resting rs')
Swap-Resting Swap.here (h, hs) = (h, λ k. (k, hs))
Swap-Resting (Swap.there w) (h, hs) = let r = Swap-Resting w hs in (r.0, λ k. (h, r.1 k))

module _ {p : Platform} {env : Env p} (handler : JobFunc env) (f : SimpleFetcher) where
  Move-Asleep : {s t : System env} → Move env handler f s t → Asleep s → Asleep t
  Move-Asleep (Move.starts_inactive e _ q) a = absurd (rw e at a.fetch)
  Move-Asleep (Move.lists_old ms w e _ _ q) a = absurd (rw e at a.fetch)
  Move-Asleep (Move.sends_old raw rest m w rs e _ _ q) a = absurd (rw e at a.fetch)
  Move-Asleep (Move.skips_old raw rest w rs e _ _ q) a = absurd (rw e at a.fetch)
  Move-Asleep (Move.hands_old m rest rs e _ q) a = absurd (rw e at a.fetch)
  Move-Asleep (Move.serves e q) a = absurd (rw e at a.fetch)
  Move-Asleep (Move.checks e q) a = absurd (rw e at a.poll)
  Move-Asleep (Move.hears rs e _ q) a = absurd (rw e at a.poll)
  Move-Asleep (Move.fetches m w e _ q) a = absurd (rw e at a.poll)
  Move-Asleep (Move.fetches_nothing w e _ q) a = absurd (rw e at a.poll)
  Move-Asleep (Move.hands m rs e _ q) a = absurd (rw e at a.poll)
  Move-Asleep (Move.works m o after rs _ _ sw q) a = absurd (Swap-Resting sw a.runners).0
  Move-Asleep (Move.finishes m rs _ sw q) a = absurd (Swap-Resting sw a.runners).0
  Move-Asleep (Move.exits rs _ sw q) a =
      rw q (record { runners = (Swap-Resting sw a.runners).1 tt; poll = a.poll; fetch = a.fetch })
  Move-Asleep (Move.is_stopped _ _ q) a =
      rw q (record { runners = a.runners; poll = a.poll; fetch = a.fetch })
  Move-Asleep (Move.closes _ e q) a = absurd (rw e at a.fetch)
  Move-Asleep (Move.closes_inactive _ _ q) a =
      rw q (record { runners = a.runners; poll = a.poll; fetch = tt })
  Move-Asleep (Move.tells _ _ q) a =
      rw q (record { runners = a.runners; poll = a.poll; fetch = a.fetch })
  Move-Asleep (Move.leaves _ _ q) a =
      rw q (record { runners = a.runners; poll = a.poll; fetch = a.fetch })
  Move-Asleep (Move.goes _ _ q) a =
      rw q (record { runners = a.runners; poll = a.poll; fetch = a.fetch })

  Step-Asleep : {s t : System env} → Step env handler f s t → Asleep s → Asleep t
  Step-Asleep (Step.moves m) a = Move-Asleep m a
  Step-Asleep (Step.quits _ _ q) a =
      rw q (record { runners = a.runners; poll = a.poll; fetch = a.fetch })
  Step-Asleep (Step.activates b q) a =
      rw q (record { runners = a.runners; poll = a.poll; fetch = a.fetch })

  -- A worker whose fetcher waits in its first loop, because it started inactive, never gets a
  -- message: whatever steps follow, activations included, nothing is fetched, no runner has a
  -- message, and the fetcher still waits there or has returned.
  pub inactive_forever : {s t : System env} → Asleep s → Reach env handler f s t → Asleep t
  inactive_forever a Reach.stays = a
  inactive_forever a (Reach.steps r m) = Step-Asleep m (inactive_forever a r)
