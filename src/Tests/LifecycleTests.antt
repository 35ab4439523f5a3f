-- ===== src/Tests/LifecycleTests.antt =====
-- The theorems on the life of a manager, at one worker.
use go_workers.Prelude.{◌≡◌, refl, true, false, List, [], ◌∷◌, All, arith}
use go_workers.Manager.Lifecycle.{
  Task, Watcher, Caller, Stopper, Running, Life, quit_task, quit_at, Turn, launched, run_after,
  Move, Step, Reach, Moves,
}
use go_workers.Manager.Lifecycle.Ends.{returned_once}
use go_workers.Manager.Lifecycle.Missed.{Missed, waits_forever}
use go_workers.Manager.Lifecycle.Completes.{run_completes}

abbrev one_pending : List Task
one_pending = Task.pending ∷ []

abbrev one_ended : List Task
one_ended = Task.ended ∷ []

-- One worker starts, the context is cancelled, the worker is told and ends.
abbrev at_work : Life
at_work = record (launched one_pending false) { tasks = Task.working ∷ [] }

abbrev called_off : Life
called_off = record at_work { cancelled = true }

abbrev before_quit : Life
before_quit = record called_off { watcher = Watcher.quitting 0 }

abbrev after_quit : Life
after_quit = record called_off { tasks = Task.leaving ∷ []; watcher = Watcher.quitting 1 }

abbrev over_now : Life
over_now = record after_quit { tasks = one_ended }

abbrev all_done : Life
all_done = record over_now { watcher = Watcher.finished; schedule = false }

abbrev in_defer : Life
in_defer = record all_done { run = Running.deferring }

abbrev in_stop : Life
in_stop = record in_defer { stopper = Stopper.stopping Caller.deferred 1 }

abbrev at_end : Life
at_end = record in_defer { drained = 1; running = false; run = Running.returned }

called : Reach (launched one_pending false) before_quit
called =
    Reach.steps
      (Reach.steps
        (Reach.steps {t = launched one_pending false} {u = at_work} Reach.stays
          (Step.moves (Move.starts _ Turn.here refl)))
        (Step.moves (Move.cancels refl)))
      (Step.moves (Move.sees_cancel refl refl refl))

told : Reach (launched one_pending false) after_quit
unfolding quit_at quit_task
told = Reach.steps called (Step.moves (Move.watcher_quits 0 refl (omega arith) refl))

quiet : Reach (launched one_pending false) all_done
quiet =
    Reach.steps
      (Reach.steps {u = record over_now { watcher = Watcher.finished }}
        (Reach.steps {u = over_now} told (Step.moves (Move.leaves _ Turn.here refl)))
        (Step.moves (Move.watcher_ends 1 refl (omega arith) refl)))
      (Step.moves (Move.schedule_ends refl refl))

stopped_at : Reach (launched one_pending false) in_stop
unfolding quit_at quit_task
stopped_at =
    Reach.steps
      (Reach.steps {u = record in_defer { stopper = Stopper.stopping Caller.deferred 0 }}
        (Reach.steps {u = in_defer} quiet
          (Step.moves (Move.group_ends refl (refl, tt) refl refl refl refl)))
        (Step.moves (Move.run_stops refl refl refl refl)))
      (Step.moves (Move.stop_quits Caller.deferred 0 refl (omega arith) refl))

ends : Reach (launched one_pending false) at_end
unfolding run_after
ends =
    Reach.steps stopped_at (Step.moves (Move.stop_drains Caller.deferred 1 refl (omega arith) refl))

returned_once_example :
    (at_end.cancelled ≡ true) × All (λ k. k ≡ Task.ended) at_end.tasks × (at_end.drained ≡ 1)
returned_once_example = returned_once one_pending false ends refl

run_completes_example : (t : Life) × Moves called_off t × (t.run ≡ Running.returned)
run_completes_example = run_completes called_off refl refl refl refl refl (tt, tt)

-- The context is cancelled before the worker has started.
abbrev too_early : Life
too_early = record (launched one_pending false) { cancelled = true; watcher = Watcher.finished }

comes_too_early : Moves (launched one_pending false) too_early
unfolding quit_at quit_task
comes_too_early =
    Moves.then
      (Moves.then
        (Moves.then
          (Moves.then {t = launched one_pending false}
            {u = record (launched one_pending false) { cancelled = true }} Moves.none
            (Move.cancels refl))
          (Move.sees_cancel refl refl refl))
        (Move.watcher_quits 0 refl (omega arith) refl))
      (Move.watcher_ends 1 refl (omega arith) refl)

abbrev on_and_on : Life
on_and_on = record too_early { tasks = Task.working ∷ [] }

goes_on : Moves too_early on_and_on
goes_on = Moves.then Moves.none (Move.starts _ Turn.here refl)

waits_forever_example : Missed on_and_on
waits_forever_example =
    waits_forever (record { watcher = refl; stopper = refl; run = refl; awake = tt }) goes_on
