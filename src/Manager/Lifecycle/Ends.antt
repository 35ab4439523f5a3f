-- ===== src/Manager/Lifecycle/Ends.antt =====
-- When `Run` returns, and how often the hooks of a drain run (manager.go).
use go_workers.Prelude.{◌≡◌, refl, ap, Bool, true, List, All, arith}
use go_workers.Manager.Lifecycle.{
  Task, Stopper, Running, Life, launched, run_after, Move, Step, Reach,
}
use go_workers.Manager.Lifecycle.Sound.{
  Over, Marked, Holds, undrained, Sound, Over-Turn, Over-quit_at, Over-cancelled, Cause-cancelled,
  Marked-false, Holds-deferring, Holds-running, Holds-suc, Over-run_after, drained_once,
}

Move-Sound : {s t : Life} → Move s t → Sound s → Sound t
Move-Sound {s} (Move.starts ts w q) h = rw q (record {
  once = h.once;
  holds = h.holds;
  cause = h.cause;
  over = Over-Turn s.run s.cancelled w (λ e. cc e) h.over;
  marked = h.marked;
})
Move-Sound {s} (Move.leaves ts w q) h = rw q (record {
  once = h.once;
  holds = h.holds;
  cause = h.cause;
  over = Over-Turn s.run s.cancelled w (λ e. cc e) h.over;
  marked = h.marked;
})
Move-Sound {s} (Move.cancels q) h = rw q (record {
  once = h.once;
  holds = h.holds;
  cause = Cause-cancelled s.watcher;
  over = Over-cancelled s.run s.tasks s.cancelled h.over;
  marked = h.marked;
})
Move-Sound (Move.sees_cancel e c q) h =
    rw q (record { once = h.once; holds = h.holds; cause = c; over = h.over; marked = h.marked })
Move-Sound {s} (Move.watcher_quits n e l q) h = rw q (record {
  once = h.once;
  holds = h.holds;
  cause = rw e at h.cause;
  over = Over-quit_at s.run n s.tasks s.cancelled h.over;
  marked = h.marked;
})
Move-Sound (Move.watcher_ends n e l q) h = rw q (record {
  once = h.once;
  holds = h.holds;
  cause = rw e at h.cause;
  over = h.over;
  marked = h.marked;
})
Move-Sound (Move.schedule_ends c q) h =
    rw q
      (record { once = h.once; holds = h.holds; cause = h.cause; over = h.over; marked = h.marked })
Move-Sound (Move.heartbeat_ends q) h =
    rw q
      (record { once = h.once; holds = h.holds; cause = h.cause; over = h.over; marked = h.marked })
Move-Sound {s} (Move.group_ends r all w sc hb q) h = rw q (record {
  once = h.once;
  holds = Holds-deferring s.stopper s.running (rw r at h.holds);
  cause = h.cause;
  over = (all, rw w at h.cause);
  marked = tt;
})
Move-Sound (Move.run_stops r f e q) h =
    rw q
      (record { once = h.once; holds = (r, e); cause = h.cause; over = h.over; marked = h.marked })
Move-Sound (Move.run_is_stopped r f e q) h =
    rw q (record {
      once = h.once;
      holds = rw f tt;
      cause = h.cause;
      over = rw r at h.over;
      marked = e;
    })
Move-Sound {s} (Move.stop_quits c n e l q) h = rw q (record {
  once = h.once;
  holds = Holds-suc c n s.run s.running (rw e at h.holds);
  cause = h.cause;
  over = Over-quit_at s.run n s.tasks s.cancelled h.over;
  marked = h.marked;
})
Move-Sound {s} (Move.stop_drains c n e l q) h =
    let holds : Holds (Stopper.stopping c n) s.run s.running = rw e at h.holds in
    rw q (record {
      once = drained_once s.drained h.once (Holds-running c n s.run s.running holds);
      holds = tt;
      cause = h.cause;
      over = Over-run_after c n s.run s.tasks s.cancelled s.running holds h.over;
      marked = Marked-false (run_after c s.run);
    })

Step-Sound : {s t : Life} → Step s t → Sound s → Sound t
Step-Sound (Step.moves m) h = Move-Sound m h
Step-Sound (Step.calls_stop f e q) h =
    rw q (record { once = h.once; holds = e; cause = h.cause; over = h.over; marked = h.marked })

launched-Sound : (workers : List Task) (beats : Bool) → Sound (launched workers beats)
launched-Sound workers beats = record {
  once = refl;
  holds = tt;
  cause = tt;
  over = tt;
  marked = tt;
}

Reach-Sound : {s t : Life} → Sound s → Reach s t → Sound t
Reach-Sound h Reach.stays = h
Reach-Sound h (Reach.steps r m) = Step-Sound m (Reach-Sound h r)

-- However workers, context and callers of `Stop` interleave: when `Run` has returned, the context
-- is cancelled, every worker has ended, and the hooks of a drain have run exactly once. A call of
-- `Stop` alone does not make it return.
pub returned_once :
    {s : Life} (workers : List Task) (beats : Bool)
    → Reach (launched workers beats) s
    → s.run ≡ Running.returned
    → (s.cancelled ≡ true) × All (λ k. k ≡ Task.ended) s.tasks × (s.drained ≡ 1)
returned_once {s} workers beats r e =
    let h = Reach-Sound (launched-Sound workers beats) r in
    let over : Over Running.returned s.tasks s.cancelled = rw e at h.over in
    let marked : Marked Running.returned s.running = rw e at h.marked in
    (over.1, over.0, omega (arith, h.once, ap undrained marked))
