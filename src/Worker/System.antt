-- ===== src/Worker/System.antt =====
-- worker.go, fetcher.go and task_runner.go: a worker at work. Its loop (`start`), the two goroutines
-- of its fetcher (`Fetch`), its runners (`work`), and the callers of `quit`, which meet on channels.
pub mod Counts
pub mod Bounds
pub mod Kept
pub mod Inactive
pub mod Deadlock
pub mod Shutdown
pub mod Delivery
pub mod Waiting
use go_workers.Prelude.{
  ℕ, String, ◌≡◌, ◌≢◌, Bool, true, false, Option, none, some, List, [], ◌∷◌, All, if◌then◌else◌,
}
use go_workers.Effect.{Outcome, ok, spin}
use go_workers.External.Platform.{Platform}
use go_workers.Msg.{Msg}
use go_workers.Job.{Env, Frame, JobFunc}
use go_workers.Worker.{
  SimpleFetcher, try_fetch_message, send_message, acknowledge, inprogress_messages, begin,
  process_message, logged,
}

-- Where the goroutine of a runner stands.
pub data Runner (p : Platform) : Type 0 where
  idle : Runner p  -- at the `select` of `work`
  working : Msg p → Runner p  -- in `process`
  finishing : Msg p → Runner p  -- at `done <- msg`
  exited : Runner p

-- Where the goroutine of `Fetch` stands.
pub data Fetching (p : Platform) : Type 0 where
  starting : Fetching p
  inactive : Fetching p  -- at the `select` of the first loop
  old : List String → Fetching p  -- in `processOldMessages`, with the messages still to be sent
  old_sending : Msg p → List String → Fetching p  -- at `f.Messages() <- msg`, called from there
  serving : Fetching p  -- at the `select` of the last loop
  returned : Fetching p

-- Where the goroutine that polls Redis stands.
pub data Polling (p : Platform) : Type 0 where
  absent : Polling p
  checking : Polling p  -- before the test of `f.Closed()`
  waiting : Polling p  -- at `<-f.Ready()`
  fetching : Polling p  -- before `tryFetchMessage`
  sending : Msg p → Polling p  -- at `f.Messages() <- msg`
  ended : Polling p

-- Where `start` of the worker stands.
pub data Looping : Type 0 where
  selecting : Looping
  closing : Looping  -- at `f.stop <- true` of `fetcher.Close()`
  telling : Looping  -- before `w.runnersLock.Lock()`
  leaving : Looping  -- at the lock of the deferred function
  gone : Looping

pub record System {p : Platform} (env : Env p) : Type 0 where
  pub world : env.World
  pub runners : List (Runner p)
  pub loop : Looping
  pub fetch : Fetching p
  pub poll : Polling p
  -- `isActive`, and the channel `closed`
  pub active : Bool
  pub closed : Bool
  -- the channels `stop` of the runners are closed
  pub told : Bool
  -- A caller of `quit` holds the lock, at `w.stop <- true`.
  pub quitting : Bool

-- One of the runners goes from `a` to `b`.
pub data Swap {p : Platform} (a b : Runner p) : List (Runner p) → List (Runner p) → Type 0 where
  here : {rs : List (Runner p)} → Swap a b (a ∷ rs) (b ∷ rs)
  there : {r : Runner p} {rs rs' : List (Runner p)} → Swap a b rs rs' → Swap a b (r ∷ rs) (r ∷ rs')

module _ {p : Platform} (env : Env p) (handler : JobFunc env) (f : SimpleFetcher) where
  -- One step of one goroutine, or of two that meet on a channel. A job runs in one step, up to the
  -- log of its error.
  pub data Move (s t : System env) : Type 0 where
    starts_inactive :
        s.fetch ≡ Fetching.starting
        → s.active ≡ false
        → t ≡ record s { fetch = Fetching.inactive }
        → Move s t
    lists_old :
        (ms : List String) (w : env.World)
        → s.fetch ≡ Fetching.starting
        → s.active ≡ true
        → inprogress_messages env f s.world ≡ (ok ms, w)
        → t ≡ record s { fetch = Fetching.old ms; world = w }
        → Move s t
    sends_old :
        (raw : String) (rest : List String) (m : Msg p) (w : env.World) (rs : List (Runner p))
        → s.fetch ≡ Fetching.old (raw ∷ rest)
        → Swap Runner.idle Runner.idle s.runners rs
        → send_message env raw s.world ≡ (ok (some m), w)
        → t ≡ record s { fetch = Fetching.old_sending m rest; world = w }
        → Move s t
    skips_old :
        (raw : String) (rest : List String) (w : env.World) (rs : List (Runner p))
        → s.fetch ≡ Fetching.old (raw ∷ rest)
        → Swap Runner.idle Runner.idle s.runners rs
        → send_message env raw s.world ≡ (ok none, w)
        → t ≡ record s { fetch = Fetching.old rest; world = w }
        → Move s t
    hands_old :
        (m : Msg p) (rest : List String) (rs : List (Runner p))
        → s.fetch ≡ Fetching.old_sending m rest
        → Swap Runner.idle (Runner.working m) s.runners rs
        → t ≡ record s { fetch = Fetching.old rest; runners = rs }
        → Move s t
    serves :
        s.fetch ≡ Fetching.old []
        → t ≡ record s { fetch = Fetching.serving; poll = Polling.checking }
        → Move s t
    checks :
        s.poll ≡ Polling.checking
        → t ≡ record s { poll = if s.closed then Polling.ended else Polling.waiting }
        → Move s t
    hears :
        (rs : List (Runner p))
        → s.poll ≡ Polling.waiting
        → Swap Runner.idle Runner.idle s.runners rs
        → t ≡ record s { poll = if s.active then Polling.fetching else Polling.checking }
        → Move s t
    fetches :
        (m : Msg p) (w : env.World)
        → s.poll ≡ Polling.fetching
        → try_fetch_message env f s.world ≡ (ok (some m), w)
        → t ≡ record s { poll = Polling.sending m; world = w }
        → Move s t
    fetches_nothing :
        (w : env.World)
        → s.poll ≡ Polling.fetching
        → try_fetch_message env f s.world ≡ (ok none, w)
        → t ≡ record s { poll = Polling.checking; world = w }
        → Move s t
    hands :
        (m : Msg p) (rs : List (Runner p))
        → s.poll ≡ Polling.sending m
        → Swap Runner.idle (Runner.working m) s.runners rs
        → t ≡ record s { poll = Polling.checking; runners = rs }
        → Move s t
    works :
        (m : Msg p) (o : Outcome (Unit {0})) (after : Frame env) (rs : List (Runner p))
        → process_message env handler (begin env m s.world) ≡ (o, after)
        → o ≢ spin
        → Swap (Runner.working m) (Runner.finishing after.message) s.runners rs
        → t ≡ record s { runners = rs; world = logged env o after.world }
        → Move s t
    finishes :
        (m : Msg p) (rs : List (Runner p))
        → s.loop ≡ Looping.selecting
        → Swap (Runner.finishing m) Runner.idle s.runners rs
        → t ≡ record s {
          runners = rs;
          world = if m.ack then (acknowledge env f m s.world).1 else s.world;
        }
        → Move s t
    exits :
        (rs : List (Runner p))
        → s.told ≡ true
        → Swap Runner.idle Runner.exited s.runners rs
        → t ≡ record s { runners = rs }
        → Move s t
    -- `case <-w.stop`: the caller of `quit` has sent, and gives the lock back.
    is_stopped :
        s.loop ≡ Looping.selecting
        → s.quitting ≡ true
        → t ≡ record s {
          loop = if s.closed then Looping.selecting else Looping.closing;
          quitting = false;
        }
        → Move s t
    closes :
        s.loop ≡ Looping.closing
        → s.fetch ≡ Fetching.serving
        → t ≡ record s { loop = Looping.telling; closed = true }
        → Move s t
    closes_inactive :
        s.loop ≡ Looping.closing
        → s.fetch ≡ Fetching.inactive
        → t ≡ record s { loop = Looping.telling; closed = true; fetch = Fetching.returned }
        → Move s t
    tells :
        s.loop ≡ Looping.telling
        → s.quitting ≡ false
        → t ≡ record s { loop = Looping.selecting; told = true }
        → Move s t
    leaves :
        s.loop ≡ Looping.selecting
        → All (λ r. r ≡ Runner.exited) s.runners
        → t ≡ record s { loop = Looping.leaving }
        → Move s t
    goes :
        s.loop ≡ Looping.leaving
        → s.quitting ≡ false
        → t ≡ record s { loop = Looping.gone }
        → Move s t

  -- The worker moves, or somebody else calls: `quit`, which takes the lock and finds the worker
  -- running, or `SetActive`.
  pub data Step (s t : System env) : Type 0 where
    moves : Move s t → Step s t
    quits : s.loop ≢ Looping.gone → s.quitting ≡ false → t ≡ record s { quitting = true } → Step s t
    activates : (b : Bool) → t ≡ record s { active = b } → Step s t

  pub data Reach (s : System env) : System env → Type 0 where
    stays : Reach s s
    steps : {t u : System env} → Reach s t → Step t u → Reach s u

  -- `start`, once the runners are there and the lock is given back
  abbrev pub begun : (concurrency : List (Runner p)) (active : Bool) → env.World → System env
  begun runners active w = record {
    world = w;
    runners = runners;
    loop = Looping.selecting;
    fetch = Fetching.starting;
    poll = Polling.absent;
    active = active;
    closed = false;
    told = false;
    quitting = false;
  }
