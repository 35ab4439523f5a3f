-- ===== src/Manager/Lifecycle/Sound.antt =====
-- What holds of a manager in every state that Run reaches (manager.go), and what keeps it.
use go_workers.Prelude.{
  ℕ, zero, suc, ◌+◌, ◌≡◌, ◌≢◌, refl, ap, subst, Bool, true, false, List, [], ◌∷◌, All, arith,
}
use go_workers.Manager.Lifecycle.{
  Task, Watcher, Caller, Stopper, Running, Life, quit_task, quit_at, Turn, run_after,
}

-- A worker that has ended stays so.
pub Turn-ended :
    {a b : Task} {ts ts' : List Task}
    → Turn a b ts ts'
    → a ≢ Task.ended
    → ¬ All (λ k. k ≡ Task.ended) ts
Turn-ended Turn.here ne (h, hs) = ne h
Turn-ended (Turn.there w) ne (h, hs) = Turn-ended w ne hs

pub quit_at-ended :
    (n : ℕ) (ts : List Task)
    → All (λ k. k ≡ Task.ended) ts
    → All (λ k. k ≡ Task.ended) (quit_at n ts)
unfolding quit_at quit_task
quit_at-ended n [] h = tt
quit_at-ended zero (t ∷ ts) (h, hs) = (rw h refl, hs)
quit_at-ended (suc n) (t ∷ ts) (h, hs) = (h, quit_at-ended n ts hs)

-- `Run` goes past `g.Wait()` only when all workers have ended and the context is cancelled.
abbrev pub Over : Running → List Task → Bool → Type 0
Over Running.waiting ts c = Unit
Over Running.deferring ts c = All (λ k. k ≡ Task.ended) ts × (c ≡ true)
Over Running.returned ts c = All (λ k. k ≡ Task.ended) ts × (c ≡ true)

-- The watcher moves only when the context is cancelled.
abbrev pub Cause : Watcher → Bool → Type 0
Cause Watcher.watching c = Unit
Cause (Watcher.quitting n) c = c ≡ true
Cause Watcher.finished c = c ≡ true

-- `Run` returns only when the manager is no longer marked as running.
abbrev pub Marked : Running → Bool → Type 0
Marked Running.returned b = b ≡ false
Marked Running.deferring b = Unit
Marked Running.waiting b = Unit

-- Only a manager marked as running is being stopped, and by its deferred function only late.
abbrev pub Holds : Stopper → Running → Bool → Type 0
Holds Stopper.free r b = Unit
Holds (Stopper.stopping Caller.somebody n) r b = b ≡ true
Holds (Stopper.stopping Caller.deferred n) r b = (r ≡ Running.deferring) × (b ≡ true)

abbrev pub undrained : Bool → ℕ
undrained true = 1
undrained false = 0

pub record Sound (s : Life) : Type 0 where
  pub once : s.drained + undrained s.running ≡ 1
  pub holds : Holds s.stopper s.run s.running
  pub cause : Cause s.watcher s.cancelled
  pub over : Over s.run s.tasks s.cancelled
  pub marked : Marked s.run s.running

pub Over-Turn :
    (r : Running) {a b : Task} {ts ts' : List Task} (c : Bool)
    → Turn a b ts ts'
    → a ≢ Task.ended
    → Over r ts c
    → Over r ts' c
Over-Turn Running.waiting c w ne h = tt
Over-Turn Running.deferring c w ne h = absurd (Turn-ended w ne h.0)
Over-Turn Running.returned c w ne h = absurd (Turn-ended w ne h.0)

pub Over-quit_at :
    (r : Running) (n : ℕ) (ts : List Task) (c : Bool) → Over r ts c → Over r (quit_at n ts) c
Over-quit_at Running.waiting n ts c h = tt
Over-quit_at Running.deferring n ts c h = (quit_at-ended n ts h.0, h.1)
Over-quit_at Running.returned n ts c h = (quit_at-ended n ts h.0, h.1)

pub Over-cancelled : (r : Running) (ts : List Task) (c : Bool) → Over r ts c → Over r ts true
Over-cancelled Running.waiting ts c h = tt
Over-cancelled Running.deferring ts c h = (h.0, refl)
Over-cancelled Running.returned ts c h = (h.0, refl)

pub Cause-cancelled : (w : Watcher) → Cause w true
Cause-cancelled Watcher.watching = tt
Cause-cancelled (Watcher.quitting n) = refl
Cause-cancelled Watcher.finished = refl

pub Marked-false : (r : Running) → Marked r false
Marked-false Running.waiting = tt
Marked-false Running.deferring = tt
Marked-false Running.returned = refl

pub Holds-deferring :
    (st : Stopper) (b : Bool) → Holds st Running.waiting b → Holds st Running.deferring b
Holds-deferring Stopper.free b h = tt
Holds-deferring (Stopper.stopping Caller.somebody n) b h = h
Holds-deferring (Stopper.stopping Caller.deferred n) b h = (refl, h.1)

pub Holds-running :
    (c : Caller) (n : ℕ) (r : Running) (b : Bool) → Holds (Stopper.stopping c n) r b → b ≡ true
Holds-running Caller.somebody n r b h = h
Holds-running Caller.deferred n r b h = h.1

pub Holds-suc :
    (c : Caller) (n : ℕ) (r : Running) (b : Bool)
    → Holds (Stopper.stopping c n) r b
    → Holds (Stopper.stopping c (suc n)) r b
Holds-suc Caller.somebody n r b h = h
Holds-suc Caller.deferred n r b h = h

pub Over-run_after :
    (c : Caller) (n : ℕ) (r : Running) (ts : List Task) (k b : Bool)
    → Holds (Stopper.stopping c n) r b
    → Over r ts k
    → Over (run_after c r) ts k
unfolding run_after
Over-run_after Caller.somebody n r ts k b h o = o
Over-run_after Caller.deferred n r ts k b h o = subst (λ x. Over x ts k) h.0 o

pub drained_once : (d : ℕ) {b : Bool} → d + undrained b ≡ 1 → b ≡ true → suc d + 0 ≡ 1
drained_once d h e = omega (arith, h, ap undrained e)
