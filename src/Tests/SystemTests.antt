-- ===== src/Tests/SystemTests.antt =====
-- The theorems on a worker at work, at one runner and two messages of an earlier run.
use go_workers.Prelude.{
  ◌≤◌, ◌≡◌, ◌≢◌, refl, String, true, false, List, [], ◌∷◌, str_eq, if◌then◌else◌,
}
use go_workers.Prelude.Int.{pos}
use go_workers.Effect.{ok, spin}
use go_workers.Storage.Instance.{redis_store-StoreLaws}
use go_workers.Storage.Refinement.{jobs}
use go_workers.Storage.Keys.{get_queue_name}
use go_workers.Storage.RedisStore.Queues.{list_messages}
use go_workers.Msg.{Msg, new_msg}
use go_workers.Job.{Frame, JobFunc}
use go_workers.Worker.{
  SimpleFetcher, process_message, begin, inprogress_messages, send_message, logged,
}
use go_workers.Worker.Effects.{in_progress}
use go_workers.Worker.System.{
  Runner, Fetching, Polling, Looping, System, Swap, Move, Step, Reach, begun,
}
use go_workers.Worker.System.Bounds.{Surroundings}
use go_workers.Worker.System.Counts.{count, held}
use go_workers.Worker.System.Kept.{never_lost}
use go_workers.Worker.System.Inactive.{Asleep, inactive_forever}
use go_workers.Worker.System.Deadlock.{Jammed, Locked, Reach-Jammed, Reach-Locked}
use go_workers.Worker.System.Shutdown.{Moves, shutdown_completes, stop_completes}
use go_workers.Tests.Instances.{tiny, Memory, in_memory-Documented, job}
use go_workers.Tests.StorageTests.{stored, busy_memory}
use go_workers.Tests.RetryTests.{surroundings}

abbrev pub fetcher : SimpleFetcher
fetcher = record { queue = "q"; process_id = "1"; is_active = true; is_closed = false }

abbrev pub succeeds : JobFunc surroundings
succeeds f = (ok tt, f)

abbrev pub old_memory : Memory
old_memory = record busy_memory {
  lists = λ k. if str_eq k "app:queue:q:1:inprogress" then "job" ∷ "other" ∷ [] else [];
}

abbrev pub WorkerState : Type 0
WorkerState = System surroundings

abbrev pub one_runner : List (Runner tiny)
one_runner = Runner.idle ∷ []

abbrev pub from_start : WorkerState
from_start = begun surroundings succeeds fetcher one_runner true old_memory

abbrev pub message : String → Msg tiny
message raw = record { json = job; original = raw; ack = true; started_at = pos 0 }

abbrev listed : WorkerState
listed = record from_start { fetch = Fetching.old ("job" ∷ "other" ∷ []) }

abbrev sent : WorkerState
sent = record listed { fetch = Fetching.old_sending (message "job") ("other" ∷ []) }

abbrev handed : WorkerState
handed = record sent {
  fetch = Fetching.old ("other" ∷ []);
  runners = Runner.working (message "job") ∷ [];
}

abbrev worked : WorkerState
worked = record handed {
  runners = Runner.finishing (begin surroundings (message "job") old_memory).message ∷ [];
}

abbrev asked : WorkerState
asked = record worked { quitting = true }

abbrev pub jammed : WorkerState
jammed = record asked { quitting = false; loop = Looping.closing }

lists : Step surroundings succeeds fetcher from_start listed
unfolding inprogress_messages list_messages get_queue_name
lists = Step.moves (Move.lists_old ("job" ∷ "other" ∷ []) old_memory refl refl refl refl)

sends : Step surroundings succeeds fetcher listed sent
unfolding send_message new_msg
sends = Step.moves (
    Move.sends_old "job" ("other" ∷ []) (message "job") old_memory one_runner refl Swap.here refl
      refl)

hands : Step surroundings succeeds fetcher sent handed
hands = Step.moves (Move.hands_old (message "job") ("other" ∷ []) _ refl Swap.here refl)

runs : Step surroundings succeeds fetcher handed worked
unfolding process_message begin logged
runs = Step.moves (
    Move.works (message "job") (ok tt) (begin surroundings (message "job") old_memory) _ refl
      (λ e. cc e) Swap.here refl)

asks : Step surroundings succeeds fetcher worked asked
asks = Step.quits (λ e. cc e) refl refl

stops : Step surroundings succeeds fetcher asked jammed
stops = Step.moves (Move.is_stopped refl refl refl)

pub reaches_jam : Reach surroundings succeeds fetcher from_start jammed
reaches_jam =
    Reach.steps
      (Reach.steps
        (Reach.steps (Reach.steps (Reach.steps (Reach.steps Reach.stays lists) sends) hands) runs)
        asks)
      stops

is_jammed : Jammed jammed
is_jammed = record { loop = tt; fetch = tt; runners = (tt, tt) }

Reach-Jammed_example : Jammed jammed
Reach-Jammed_example = Reach-Jammed succeeds fetcher is_jammed Reach.stays

-- The jobs of this worker leave the store alone.
pub around : Surroundings surroundings succeeds fetcher (jobs stored in_memory-Documented)
around = record {
  quiet = λ words w. refl;
  still = λ w. refl;
  untouched = λ fr. refl;
  same_text = λ fr. refl;
}

never_lost_example :
    held "other" jammed
    ≤ count "other"
        (in_progress surroundings fetcher (jobs stored in_memory-Documented) jammed.world)
never_lost_example =
    never_lost surroundings succeeds fetcher (jobs stored in_memory-Documented)
      (redis_store-StoreLaws stored in_memory-Documented).0 around one_runner true old_memory
      (tt, tt) reaches_jam "other"

-- A worker that starts inactive, and is activated later
abbrev asleep : WorkerState
asleep = record (begun surroundings succeeds fetcher one_runner false old_memory) {
  fetch = Fetching.inactive;
}

abbrev activated : WorkerState
activated = record asleep { active = true }

falls_asleep :
    Step surroundings succeeds fetcher
      (begun surroundings succeeds fetcher one_runner false old_memory)
      asleep
falls_asleep = Step.moves (Move.starts_inactive refl refl refl)

is_activated : Step surroundings succeeds fetcher asleep activated
is_activated = Step.activates true refl

inactive_forever_example : Asleep activated
inactive_forever_example =
    inactive_forever succeeds fetcher (record { runners = (tt, tt); poll = tt; fetch = tt })
      (Reach.steps Reach.stays is_activated)

-- A worker that two callers ask to stop, the second while it closes its fetcher
abbrev asked_once : WorkerState
asked_once = record from_start { quitting = true }

abbrev closes_now : WorkerState
closes_now = record from_start { loop = Looping.closing }

abbrev locked : WorkerState
locked = record closes_now { quitting = true }

first_asks : Step surroundings succeeds fetcher from_start asked_once
first_asks = Step.quits (λ e. cc e) refl refl

is_told : Step surroundings succeeds fetcher asked_once closes_now
is_told = Step.moves (Move.is_stopped refl refl refl)

second_asks : Step surroundings succeeds fetcher closes_now locked
second_asks = Step.quits (λ e. cc e) refl refl

reaches_lock : Reach surroundings succeeds fetcher from_start locked
reaches_lock = Reach.steps (Reach.steps (Reach.steps Reach.stays first_asks) is_told) second_asks

Reach-Locked_example : Locked locked
Reach-Locked_example =
    Reach-Locked succeeds fetcher (record { loop = tt; quitting = refl }) Reach.stays

-- A worker at work on a message when it is asked to stop
abbrev serving : WorkerState
serving = record handed { fetch = Fetching.serving; poll = Polling.checking; quitting = true }

always_returns : (fr : Frame surroundings) → (process_message surroundings succeeds fr).0 ≢ spin
unfolding process_message
always_returns fr = λ e. cc e

stop_completes_example :
    (t : WorkerState) × Moves succeeds fetcher serving t × (t.loop ≡ Looping.gone)
stop_completes_example = stop_completes succeeds fetcher always_returns serving refl refl refl refl

abbrev stopping : WorkerState
stopping = record handed { fetch = Fetching.serving; closed = true; told = true }

shutdown_completes_example :
    (t : WorkerState) × Moves succeeds fetcher stopping t × (t.loop ≡ Looping.gone)
shutdown_completes_example =
    shutdown_completes succeeds fetcher always_returns stopping
      (record { loop = refl; told = refl; free = refl })
