-- ===== src/Manager/Lifecycle.antt =====
-- manager.go: `Run` with the goroutines of its group, the context, and the callers of `Stop`.
pub mod Sound
pub mod Ends
pub mod Missed
pub mod Completes
use go_workers.Prelude.{
  ℕ, zero, suc, ◌+◌, ◌≤◌, ◌<◌, ◌≡◌, ◌≢◌, Bool, true, false, List, [], ◌∷◌, All, length,
  if◌then◌else◌,
}

-- The goroutine of a worker. One that has been sent the stop is `leaving` until `start` returns
-- (Worker/System says when it does).
pub data Task : Type 0 where
  pending : Task  -- before `w.start`
  working : Task
  leaving : Task
  ended : Task

-- The goroutine that waits for the context
pub data Watcher : Type 0 where
  watching : Watcher
  quitting : ℕ → Watcher  -- before `quit` of the worker with this number
  finished : Watcher

pub data Caller : Type 0 where
  somebody : Caller
  deferred : Caller  -- the deferred function of `Run`

-- Who has the lock of the manager, in `Stop`, before `quit` of the worker with this number
pub data Stopper : Type 0 where
  free : Stopper
  stopping : Caller → ℕ → Stopper

pub data Running : Type 0 where
  waiting : Running  -- at `g.Wait()`
  deferring : Running  -- in the deferred functions
  returned : Running

pub record Life : Type 0 where
  pub running : Bool
  pub cancelled : Bool
  pub stopper : Stopper
  pub run : Running
  pub tasks : List Task
  pub watcher : Watcher
  -- whether the poll of the scheduled messages and the heartbeat still run
  pub schedule : Bool
  pub heartbeat : Bool
  -- how often the hooks of a drain have run
  pub drained : ℕ

-- `quit` sends only to a worker that runs.
unfoldable pub quit_task : Task → Task
quit_task Task.pending = Task.pending
quit_task Task.working = Task.leaving
quit_task Task.leaving = Task.leaving
quit_task Task.ended = Task.ended

unfoldable pub quit_at : ℕ → List Task → List Task
unfolding quit_task
quit_at n [] = []
quit_at zero (t ∷ ts) = quit_task t ∷ ts
quit_at (suc n) (t ∷ ts) = t ∷ quit_at n ts

-- One of the workers goes from `a` to `b`.
pub data Turn (a b : Task) : List Task → List Task → Type 0 where
  here : {ts : List Task} → Turn a b (a ∷ ts) (b ∷ ts)
  there : {t : Task} {ts ts' : List Task} → Turn a b ts ts' → Turn a b (t ∷ ts) (t ∷ ts')

-- `Run` once its group has started; `beats` says whether there are options of a heartbeat.
abbrev pub launched : (workers : List Task) (beats : Bool) → Life
launched workers beats = record {
  running = true;
  cancelled = false;
  stopper = Stopper.free;
  run = Running.waiting;
  tasks = workers;
  watcher = Watcher.watching;
  schedule = true;
  heartbeat = beats;
  drained = 0;
}

-- Where `Run` is after a call of `Stop`.
unfoldable pub run_after : Caller → Running → Running
run_after Caller.somebody r = r
run_after Caller.deferred r = Running.returned

-- One step of `Run`, of a goroutine of its group, of a call of `Stop` that has begun, or of the
-- context.
pub data Move (s t : Life) : Type 0 where
  starts :
      (ts : List Task)
      → Turn Task.pending Task.working s.tasks ts
      → t ≡ record s { tasks = ts }
      → Move s t
  leaves :
      (ts : List Task)
      → Turn Task.leaving Task.ended s.tasks ts
      → t ≡ record s { tasks = ts }
      → Move s t
  cancels : t ≡ record s { cancelled = true } → Move s t
  sees_cancel :
      s.watcher ≡ Watcher.watching
      → s.cancelled ≡ true
      → t ≡ record s { watcher = Watcher.quitting 0 }
      → Move s t
  watcher_quits :
      (n : ℕ)
      → s.watcher ≡ Watcher.quitting n
      → n < length s.tasks
      → t ≡ record s { tasks = quit_at n s.tasks; watcher = Watcher.quitting (suc n) }
      → Move s t
  watcher_ends :
      (n : ℕ)
      → s.watcher ≡ Watcher.quitting n
      → length s.tasks ≤ n
      → t ≡ record s { watcher = Watcher.finished }
      → Move s t
  schedule_ends : s.cancelled ≡ true → t ≡ record s { schedule = false } → Move s t
  -- on the context, or on an error of a heartbeat
  heartbeat_ends : t ≡ record s { heartbeat = false } → Move s t
  group_ends :
      s.run ≡ Running.waiting
      → All (λ k. k ≡ Task.ended) s.tasks
      → s.watcher ≡ Watcher.finished
      → s.schedule ≡ false
      → s.heartbeat ≡ false
      → t ≡ record s { run = Running.deferring }
      → Move s t
  run_stops :
      s.run ≡ Running.deferring
      → s.stopper ≡ Stopper.free
      → s.running ≡ true
      → t ≡ record s { stopper = Stopper.stopping Caller.deferred 0 }
      → Move s t
  run_is_stopped :
      s.run ≡ Running.deferring
      → s.stopper ≡ Stopper.free
      → s.running ≡ false
      → t ≡ record s { run = Running.returned }
      → Move s t
  stop_quits :
      (c : Caller) (n : ℕ)
      → s.stopper ≡ Stopper.stopping c n
      → n < length s.tasks
      → t ≡ record s { tasks = quit_at n s.tasks; stopper = Stopper.stopping c (suc n) }
      → Move s t
  stop_drains :
      (c : Caller) (n : ℕ)
      → s.stopper ≡ Stopper.stopping c n
      → length s.tasks ≤ n
      → t ≡ record s {
        drained = suc s.drained;
        running = false;
        stopper = Stopper.free;
        run = run_after c s.run;
      }
      → Move s t

-- Somebody else calls `Stop`, which does nothing unless the manager runs.
pub data Step (s t : Life) : Type 0 where
  moves : Move s t → Step s t
  calls_stop :
      s.stopper ≡ Stopper.free
      → s.running ≡ true
      → t ≡ record s { stopper = Stopper.stopping Caller.somebody 0 }
      → Step s t

pub data Reach (s : Life) : Life → Type 0 where
  stays : Reach s s
  steps : {t u : Life} → Reach s t → Step t u → Reach s u

-- Steps without a call of `Stop`
pub data Moves (s : Life) : Life → Type 0 where
  none : Moves s s
  then : {t u : Life} → Moves s t → Move t u → Moves s u
