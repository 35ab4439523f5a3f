-- ===== src/Manager/Lifecycle/Completes.antt =====
-- After the context is cancelled `Run` can return, if its workers had started (manager.go).
use go_workers.Prelude.{
  ℕ, zero, suc, ◌+◌, ◌≤◌, ◌≡◌, refl, ap, true, false, List, [], ◌∷◌, All, map, length, arith,
}
use go_workers.Manager.Lifecycle.{
  Task, Watcher, Caller, Stopper, Running, Life, quit_task, quit_at, Turn, run_after, Move, Moves,
}

abbrev pub Started : Task → Type 0
Started Task.pending = ⊥
Started _ = Unit

abbrev Leaves : Task → Type 0
Leaves Task.leaving = Unit
Leaves Task.ended = Unit
Leaves _ = ⊥

-- The first workers have been told, and all have started.
abbrev Told : ℕ → List Task → Type 0
Told n [] = Unit
Told zero (t ∷ ts) = Started t × All Started ts
Told (suc n) (t ∷ ts) = Leaves t × Told n ts

Told-zero : (ts : List Task) → All Started ts → Told zero ts
Told-zero [] h = tt
Told-zero (t ∷ ts) h = h

Leaves-quit_task : (t : Task) → Started t → Leaves (quit_task t)
unfolding quit_task
Leaves-quit_task Task.pending h = h
Leaves-quit_task Task.working h = tt
Leaves-quit_task Task.leaving h = tt
Leaves-quit_task Task.ended h = tt

Told-quit_at : (n : ℕ) (ts : List Task) → Told n ts → Told (suc n) (quit_at n ts)
unfolding quit_at
Told-quit_at n [] h = tt
Told-quit_at zero (t ∷ ts) h = (Leaves-quit_task t h.0, Told-zero ts h.1)
Told-quit_at (suc n) (t ∷ ts) h = (h.0, Told-quit_at n ts h.1)

length-quit_at : (n : ℕ) (ts : List Task) → length (quit_at n ts) ≡ length ts
unfolding quit_at
length-quit_at n [] = refl
length-quit_at zero (t ∷ ts) = refl
length-quit_at (suc n) (t ∷ ts) = ap suc (length-quit_at n ts)

Told-Leaves : (n : ℕ) (ts : List Task) → length ts ≤ n → Told n ts → All Leaves ts
Told-Leaves n [] l h = tt
Told-Leaves zero (t ∷ ts) l h = absurd (omega (arith, l))
Told-Leaves (suc n) (t ∷ ts) l h = (h.0, Told-Leaves n ts (omega (arith, l)) h.1)

Moves-trans : {s t u : Life} → Moves s t → Moves t u → Moves s u
Moves-trans k Moves.none = k
Moves-trans k (Moves.then l m) = Moves.then (Moves-trans k l) m

abbrev watched : Life → List Task → Watcher → Life
watched s ts w = record s { tasks = ts; watcher = w }

-- The watcher quits the workers from the one with number `n` on.
watcher_loop :
    (s : Life) (k n : ℕ) (ts : List Task)
    → k + n ≡ length ts
    → Told n ts
    → (us : List Task) × All Leaves us
      × Moves (watched s ts (Watcher.quitting n)) (watched s us Watcher.finished)
watcher_loop s zero n ts e h = (
  ts,
  Told-Leaves n ts (omega (arith, e)) h,
  Moves.then Moves.none (Move.watcher_ends n refl (omega (arith, e)) refl),
)
watcher_loop s (suc k) n ts e h =
    let rest =
      watcher_loop s k (suc n) (quit_at n ts) (omega (arith, e, length-quit_at n ts))
        (Told-quit_at n ts h) in
    (
      rest.0,
      rest.1,
      Moves-trans (Moves.then Moves.none (Move.watcher_quits n refl (omega (arith, e)) refl))
          rest.2,
    )

abbrev with_tasks : Life → List Task → Life
with_tasks s ts = record s { tasks = ts }

abbrev Place : (List Task → List Task) → Type 0
Place c = (a b : Task) (xs ys : List Task) → Turn a b xs ys → Turn a b (c xs) (c ys)

abbrev all_ended : List Task → List Task
all_ended ts = map (λ _. Task.ended) ts

-- Workers that have been told end.
tasks_end :
    (s : Life) (ts : List Task) (c : List Task → List Task)
    → Place c
    → All Leaves ts
    → Moves (with_tasks s (c ts)) (with_tasks s (c (all_ended ts)))
tasks_end s [] c place h = Moves.none
tasks_end s (Task.pending ∷ ts) c place h = absurd h.0
tasks_end s (Task.working ∷ ts) c place h = absurd h.0
tasks_end s (Task.ended ∷ ts) c place h =
    tasks_end s ts (λ xs. c (Task.ended ∷ xs)) (λ a b xs ys w. place a b _ _ (Turn.there w)) h.1
tasks_end s (Task.leaving ∷ ts) c place h =
    Moves-trans (Moves.then Moves.none (Move.leaves _ (place _ _ _ _ Turn.here) refl))
      (tasks_end s ts (λ xs. c (Task.ended ∷ xs)) (λ a b xs ys w. place a b _ _ (Turn.there w)) h.1)

ended-all_ended : (ts : List Task) → All (λ k. k ≡ Task.ended) (all_ended ts)
ended-all_ended [] = tt
ended-all_ended (t ∷ ts) = (refl, ended-all_ended ts)

abbrev stopped : Life → List Task → Stopper → Life
stopped s ts st = record s { tasks = ts; stopper = st }

-- `Stop` of the deferred function, from the worker with number `n` on
stop_loop :
    (s : Life) (k n : ℕ) (ts : List Task)
    → k + n ≡ length ts
    → (t : Life) × Moves (stopped s ts (Stopper.stopping Caller.deferred n)) t
      × (t.run ≡ Running.returned)
unfolding run_after
stop_loop s zero n ts e = (
  _,
  Moves.then Moves.none (Move.stop_drains Caller.deferred n refl (omega (arith, e)) refl),
  refl,
)
stop_loop s (suc k) n ts e =
    let rest = stop_loop s k (suc n) (quit_at n ts) (omega (arith, e, length-quit_at n ts)) in
    (
      rest.0,
      Moves-trans
          (Moves.then Moves.none (Move.stop_quits Caller.deferred n refl (omega (arith, e)) refl))
          rest.1,
      rest.2,
    )

-- With `Run` waiting for its group, the context cancelled, the goroutine that waits for the context
-- still waiting for it, all workers started, nobody in `Stop` and the manager still marked as
-- running, `Run` can return by steps of its own and of its group.
pub run_completes :
    (s : Life)
    → s.run ≡ Running.waiting
    → s.watcher ≡ Watcher.watching
    → s.cancelled ≡ true
    → s.stopper ≡ Stopper.free
    → s.running ≡ true
    → All Started s.tasks
    → (t : Life) × Moves s t × (t.run ≡ Running.returned)
run_completes s r w c f b started =
    let sees : Life = record s { watcher = Watcher.quitting 0 } in
    let told =
      watcher_loop s (length s.tasks) 0 s.tasks (omega arith) (Told-zero s.tasks started) in
    let quiet : Life = watched s told.0 Watcher.finished in
    let over : Life = with_tasks quiet (all_ended told.0) in
    let silent : Life = record over { schedule = false; heartbeat = false } in
    let late : Life = record silent { run = Running.deferring } in
    let stop = stop_loop late (length late.tasks) 0 late.tasks (omega arith) in
    let first : Move s sees = Move.sees_cancel w c refl in
    let schedule : Move over (record over { schedule = false }) = Move.schedule_ends c refl in
    let beat : Move (record over { schedule = false }) silent = Move.heartbeat_ends refl in
    let group : Move silent late = Move.group_ends r (ended-all_ended told.0) refl refl refl refl in
    let last : Move late (stopped late late.tasks (Stopper.stopping Caller.deferred 0)) =
      Move.run_stops refl f b refl in
    let ends = tasks_end quiet told.0 (λ xs. xs) (λ x y xs ys k. k) told.1 in
    let before = Moves-trans (Moves-trans (Moves.then Moves.none first) told.2) ends in
    let after = Moves.then (Moves.then (Moves.then (Moves.then before schedule) beat) group) last in
    (stop.0, Moves-trans after stop.1, stop.2)
