-- ===== src/Scheduled.antt =====
-- scheduled.go: the poll that moves due messages from the sorted sets to their queues.
pub mod Forward
pub mod Ends
pub mod Empties
pub mod Returns
use Prim.Native.Char.{code}
use Prim.Native.String
use go_workers.Prelude.{
  ℕ, zero, suc, ◌==◌, String, Bool, true, false, Option, none, some, List, [], ◌∷◌, if◌then◌else◌,
}
use go_workers.Effect.{
  Error, error, Panic, of_error, Outcome, ok, err, panic, spin, Io, pure, throw, unfinished, ◌>>=◌,
  ◌>>◌, Seen, value, failed, try,
}
use go_workers.External.Platform.{Platform}
use go_workers.Msg.{Msg, new_msg, set_field, to_json}
use go_workers.Job.{Env, now_seconds}

-- The rest of a text after a prefix that it has.
abbrev after_prefix : (prefix : String) → String → Option String
after_prefix String.[] s = some s
after_prefix (String.◌∷◌ c q) String.[] = none
after_prefix (String.◌∷◌ c q) (String.◌∷◌ d s) = if code c == code d then after_prefix q s else none

-- strings.TrimPrefix
unfoldable pub trim_prefix : String → (prefix : String) → String
trim_prefix s prefix = elim (after_prefix prefix s) [ none ↦ s | some rest ↦ rest ]

-- Reading a field of a message that could not be read, whose pointer is nil.
abbrev pub nil_dereference : Panic
nil_dereference =
    of_error (error "runtime error: invalid memory address or nil pointer dereference")

module _ {p : Platform} (env : Env p) (namespace : String) where
  -- The queue that a message names, as the poll takes it: an error of String() is ignored.
  unfoldable pub queue_of : Msg p → String
  unfolding trim_prefix
  queue_of m = trim_prefix (p.as_string (p.get m.json "queue")).0 namespace

  -- The body of a loop: the error of the enqueue is ignored.
  unfoldable pub forward : (raw : String) → Io env.World (Unit {0})
  unfolding queue_of
  forward raw = elim (new_msg {p = p} raw) [
    | ok message ↦ (do
      t ← now_seconds env
      try (
          env.store.enqueue_message_now (queue_of message)
            (to_json (set_field "enqueued_at" (p.json_float t) message)))
      pure tt)
    | err e ↦ throw nil_dereference
    | panic q ↦ throw q
    | spin ↦ unfinished
  ]

  -- One of the two loops, by what it dequeues.
  unfoldable pub drain : ℕ → (dequeue : Io env.World String) → Io env.World (Unit {0})
  unfolding forward
  drain zero dequeue = unfinished
  drain (suc n) dequeue = do
    r ← try dequeue
    elim r [ failed e ↦ pure tt | value raw ↦ forward raw >> drain n dequeue ]

  unfoldable pub poll : (fuel : ℕ) → Io env.World (Unit {0})
  unfolding drain
  poll fuel = do
    now ← now_seconds env
    drain fuel (env.store.dequeue_scheduled_message now)
    drain fuel (env.store.dequeue_retried_message now)

  -- `run`, where the context is cancelled after this many ticks.
  unfoldable pub run : (ticks fuel : ℕ) → Io env.World (Unit {0})
  unfolding poll
  run zero fuel = pure tt
  run (suc n) fuel = poll fuel >> run n fuel
