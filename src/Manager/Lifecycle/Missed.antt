-- ===== src/Manager/Lifecycle/Missed.antt =====
-- A worker that starts after the context has been cancelled (Run of manager.go, quit of worker.go).
use go_workers.Prelude.{◌≡◌, refl, List, [], ◌∷◌, All}
use go_workers.Manager.Lifecycle.{Task, Watcher, Stopper, Running, Life, Turn, Move, Moves}

-- Some worker has not been told to stop: it works, or is about to.
abbrev pub Awake : List Task → Type 0
Awake [] = ⊥
Awake (Task.pending ∷ ts) = Unit
Awake (Task.working ∷ ts) = Unit
Awake (Task.leaving ∷ ts) = Awake ts
Awake (Task.ended ∷ ts) = Awake ts

-- The watcher has told the workers that ran, and some worker did not run yet.
pub record Missed (s : Life) : Type 0 where
  pub watcher : s.watcher ≡ Watcher.finished
  pub stopper : s.stopper ≡ Stopper.free
  pub run : s.run ≡ Running.waiting
  pub awake : Awake s.tasks

Awake-starts : {ts ts' : List Task} → Turn Task.pending Task.working ts ts' → Awake ts → Awake ts'
Awake-starts Turn.here h = tt
Awake-starts (Turn.there {t = Task.pending} w) h = tt
Awake-starts (Turn.there {t = Task.working} w) h = tt
Awake-starts (Turn.there {t = Task.leaving} w) h = Awake-starts w h
Awake-starts (Turn.there {t = Task.ended} w) h = Awake-starts w h

Awake-leaves : {ts ts' : List Task} → Turn Task.leaving Task.ended ts ts' → Awake ts → Awake ts'
Awake-leaves Turn.here h = h
Awake-leaves (Turn.there {t = Task.pending} w) h = tt
Awake-leaves (Turn.there {t = Task.working} w) h = tt
Awake-leaves (Turn.there {t = Task.leaving} w) h = Awake-leaves w h
Awake-leaves (Turn.there {t = Task.ended} w) h = Awake-leaves w h

Awake-ended : (ts : List Task) → Awake ts → ¬ All (λ k. k ≡ Task.ended) ts
Awake-ended [] h all = h
Awake-ended (Task.pending ∷ ts) h all = cc all.0
Awake-ended (Task.working ∷ ts) h all = cc all.0
Awake-ended (Task.leaving ∷ ts) h all = cc all.0
Awake-ended (Task.ended ∷ ts) h all = Awake-ended ts h all.1

Move-Missed : {s t : Life} → Move s t → Missed s → Missed t
Move-Missed (Move.starts ts w q) m = rw q (record {
  watcher = m.watcher;
  stopper = m.stopper;
  run = m.run;
  awake = Awake-starts w m.awake;
})
Move-Missed (Move.leaves ts w q) m = rw q (record {
  watcher = m.watcher;
  stopper = m.stopper;
  run = m.run;
  awake = Awake-leaves w m.awake;
})
Move-Missed (Move.cancels q) m =
    rw q (record { watcher = m.watcher; stopper = m.stopper; run = m.run; awake = m.awake })
Move-Missed (Move.sees_cancel e c q) m = cc (e, m.watcher)
Move-Missed (Move.watcher_quits n e l q) m = cc (e, m.watcher)
Move-Missed (Move.watcher_ends n e l q) m =
    rw q (record { watcher = refl; stopper = m.stopper; run = m.run; awake = m.awake })
Move-Missed (Move.schedule_ends c q) m =
    rw q (record { watcher = m.watcher; stopper = m.stopper; run = m.run; awake = m.awake })
Move-Missed (Move.heartbeat_ends q) m =
    rw q (record { watcher = m.watcher; stopper = m.stopper; run = m.run; awake = m.awake })
Move-Missed {s} (Move.group_ends r all w sc hb q) m = absurd (Awake-ended s.tasks m.awake all)
Move-Missed (Move.run_stops r f e q) m = cc (r, m.run)
Move-Missed (Move.run_is_stopped r f e q) m = cc (r, m.run)
Move-Missed (Move.stop_quits c n e l q) m = cc (e, m.stopper)
Move-Missed (Move.stop_drains c n e l q) m = cc (e, m.stopper)

-- If the watcher has told the workers to quit before one of them had started, `Run` never returns
-- without a call of `Stop`: whatever other steps follow, it waits for a worker that works, or is
-- about to, and that nobody tells.
pub waits_forever : {s t : Life} → Missed s → Moves s t → Missed t
waits_forever h Moves.none = h
waits_forever h (Moves.then r m) = Move-Missed m (waits_forever h r)
