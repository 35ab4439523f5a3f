-- ===== src/Worker/System/Deadlock.antt =====
-- Two ways in which a worker that is asked to stop never does (worker.go, fetcher.go).
use go_workers.Prelude.{◌≡◌, true, List, ◌∷◌, All}
use go_workers.External.Platform.{Platform}
use go_workers.Job.{Env, JobFunc}
use go_workers.Worker.{SimpleFetcher}
use go_workers.Worker.System.{Runner, Fetching, Looping, System, Swap, Move, Step, Reach}

abbrev pub IsFinishing : {p : Platform} → Runner p → Type 0
IsFinishing (Runner.finishing m) = Unit
IsFinishing _ = ⊥

-- `processOldMessages` has a message left, which needs a runner.
abbrev pub NeedsRunner : {p : Platform} → Fetching p → Type 0
NeedsRunner (Fetching.old (m ∷ ms)) = Unit
NeedsRunner (Fetching.old_sending m ms) = Unit
NeedsRunner _ = ⊥

abbrev pub IsClosing : Looping → Type 0
IsClosing Looping.closing = Unit
IsClosing _ = ⊥

-- The worker waits for the fetcher, the fetcher for a runner, and the runners for the worker.
pub record Jammed {p : Platform} {env : Env p} (s : System env) : Type 0 where
  pub loop : IsClosing s.loop
  pub fetch : NeedsRunner s.fetch
  pub runners : All IsFinishing s.runners

-- The worker waits for the lock, or will as soon as its fetcher is closed.
abbrev pub NeedsLock : Looping → Type 0
NeedsLock Looping.closing = Unit
NeedsLock Looping.telling = Unit
NeedsLock Looping.leaving = Unit
NeedsLock _ = ⊥

-- A caller of `quit` has the lock and waits for the worker, which needs the lock.
pub record Locked {p : Platform} {env : Env p} (s : System env) : Type 0 where
  pub loop : NeedsLock s.loop
  pub quitting : s.quitting ≡ true

Swap-IsFinishing :
    {p : Platform} {a b : Runner p} {rs rs' : List (Runner p)}
    → Swap a b rs rs'
    → All IsFinishing rs
    → IsFinishing a
Swap-IsFinishing Swap.here (h, hs) = h
Swap-IsFinishing (Swap.there w) (h, hs) = Swap-IsFinishing w hs

module _ {p : Platform} {env : Env p} (handler : JobFunc env) (f : SimpleFetcher) where
  Move-Jammed : {s t : System env} → Move env handler f s t → Jammed s → Jammed t
  Move-Jammed (Move.starts_inactive e _ q) j = absurd (rw e at j.fetch)
  Move-Jammed (Move.lists_old ms w e _ _ q) j = absurd (rw e at j.fetch)
  Move-Jammed (Move.sends_old raw rest m w rs _ sw _ q) j = absurd (Swap-IsFinishing sw j.runners)
  Move-Jammed (Move.skips_old raw rest w rs _ sw _ q) j = absurd (Swap-IsFinishing sw j.runners)
  Move-Jammed (Move.hands_old m rest rs _ sw q) j = absurd (Swap-IsFinishing sw j.runners)
  Move-Jammed (Move.serves e q) j = absurd (rw e at j.fetch)
  Move-Jammed (Move.checks _ q) j =
      rw q (record { loop = j.loop; fetch = j.fetch; runners = j.runners })
  Move-Jammed (Move.hears rs _ sw q) j = absurd (Swap-IsFinishing sw j.runners)
  Move-Jammed (Move.fetches m w _ _ q) j =
      rw q (record { loop = j.loop; fetch = j.fetch; runners = j.runners })
  Move-Jammed (Move.fetches_nothing w _ _ q) j =
      rw q (record { loop = j.loop; fetch = j.fetch; runners = j.runners })
  Move-Jammed (Move.hands m rs _ sw q) j = absurd (Swap-IsFinishing sw j.runners)
  Move-Jammed (Move.works m o after rs _ _ sw q) j = absurd (Swap-IsFinishing sw j.runners)
  Move-Jammed (Move.finishes m rs e sw q) j = absurd (rw e at j.loop)
  Move-Jammed (Move.exits rs _ sw q) j = absurd (Swap-IsFinishing sw j.runners)
  Move-Jammed (Move.is_stopped e _ q) j = absurd (rw e at j.loop)
  Move-Jammed (Move.closes _ e q) j = absurd (rw e at j.fetch)
  Move-Jammed (Move.closes_inactive _ e q) j = absurd (rw e at j.fetch)
  Move-Jammed (Move.tells e _ q) j = absurd (rw e at j.loop)
  Move-Jammed (Move.leaves e _ q) j = absurd (rw e at j.loop)
  Move-Jammed (Move.goes e _ q) j = absurd (rw e at j.loop)

  Step-Jammed : {s t : System env} → Step env handler f s t → Jammed s → Jammed t
  Step-Jammed (Step.moves m) j = Move-Jammed m j
  Step-Jammed (Step.quits _ _ q) j =
      rw q (record { loop = j.loop; fetch = j.fetch; runners = j.runners })
  Step-Jammed (Step.activates b q) j =
      rw q (record { loop = j.loop; fetch = j.fetch; runners = j.runners })

  -- A worker that is stopped while the fetcher still sends the messages of an earlier run, and
  -- whose runners have all finished one, is stuck: whatever steps follow, it waits in `Close`, the
  -- fetcher waits for a runner, and the runners wait for the worker.
  pub Reach-Jammed : {s t : System env} → Jammed s → Reach env handler f s t → Jammed t
  Reach-Jammed j Reach.stays = j
  Reach-Jammed j (Reach.steps r m) = Step-Jammed m (Reach-Jammed j r)

  Move-Locked : {s t : System env} → Move env handler f s t → Locked s → Locked t
  Move-Locked (Move.starts_inactive e _ q) l =
      rw q (record { loop = l.loop; quitting = l.quitting })
  Move-Locked (Move.lists_old ms w e _ _ q) l =
      rw q (record { loop = l.loop; quitting = l.quitting })
  Move-Locked (Move.sends_old raw rest m w rs _ sw _ q) l =
      rw q (record { loop = l.loop; quitting = l.quitting })
  Move-Locked (Move.skips_old raw rest w rs _ sw _ q) l =
      rw q (record { loop = l.loop; quitting = l.quitting })
  Move-Locked (Move.hands_old m rest rs _ sw q) l =
      rw q (record { loop = l.loop; quitting = l.quitting })
  Move-Locked (Move.serves e q) l = rw q (record { loop = l.loop; quitting = l.quitting })
  Move-Locked (Move.checks _ q) l = rw q (record { loop = l.loop; quitting = l.quitting })
  Move-Locked (Move.hears rs _ sw q) l = rw q (record { loop = l.loop; quitting = l.quitting })
  Move-Locked (Move.fetches m w _ _ q) l = rw q (record { loop = l.loop; quitting = l.quitting })
  Move-Locked (Move.fetches_nothing w _ _ q) l =
      rw q (record { loop = l.loop; quitting = l.quitting })
  Move-Locked (Move.hands m rs _ sw q) l = rw q (record { loop = l.loop; quitting = l.quitting })
  Move-Locked (Move.works m o after rs _ _ sw q) l =
      rw q (record { loop = l.loop; quitting = l.quitting })
  Move-Locked (Move.finishes m rs e sw q) l = absurd (rw e at l.loop)
  Move-Locked (Move.exits rs _ sw q) l = rw q (record { loop = l.loop; quitting = l.quitting })
  Move-Locked (Move.is_stopped e _ q) l = absurd (rw e at l.loop)
  Move-Locked (Move.closes _ e q) l = rw q (record { loop = tt; quitting = l.quitting })
  Move-Locked (Move.closes_inactive _ e q) l = rw q (record { loop = tt; quitting = l.quitting })
  Move-Locked (Move.tells _ e q) l = cc (e, l.quitting)
  Move-Locked (Move.leaves e _ q) l = absurd (rw e at l.loop)
  Move-Locked (Move.goes _ e q) l = cc (e, l.quitting)

  Step-Locked : {s t : System env} → Step env handler f s t → Locked s → Locked t
  Step-Locked (Step.moves m) l = Move-Locked m l
  Step-Locked (Step.quits _ e q) l = cc (e, l.quitting)
  Step-Locked (Step.activates b q) l = rw q (record { loop = l.loop; quitting = l.quitting })

  -- A caller of `quit` that has the lock while the worker closes its fetcher, is about to tell its
  -- runners, or leaves its loop waits forever: whatever steps follow, the worker needs the lock, and
  -- the caller waits for the worker.
  pub Reach-Locked : {s t : System env} → Locked s → Reach env handler f s t → Locked t
  Reach-Locked l Reach.stays = l
  Reach-Locked l (Reach.steps r m) = Step-Locked m (Reach-Locked l r)
