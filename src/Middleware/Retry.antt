-- ===== src/Middleware/Retry.antt =====
-- middleware_retry.go: a failed job is scheduled again, or its retries are exhausted.
pub mod Stored
pub mod Fields
pub mod Delay
pub mod Limit
use go_workers.Prelude.{
  ℕ, suc, ◌*◌, ◌^◌, String, Bool, true, false, not, ◌&&◌, Option, none, some, List, [], ◌∷◌,
  if◌then◌else◌,
}
use go_workers.Prelude.Int.{ℤ, pos, negsuc, ◌+ℤ◌, ◌*ℤ◌, ltb_ℤ, leb_ℤ, wrap64}
use go_workers.Effect.{
  Error, text, Panic, Outcome, ok, panic, Io, pure, fail, ◌>>=◌, ◌>>◌, Seen, value, failed, try,
  recover, on_error,
}
use go_workers.External.Platform.{Platform}
use go_workers.Msg.{Msg, set_field, to_json}
use go_workers.Job.{
  Env, Frame, JobFunc, RetriesExhaustedFunc, read_message, modify_message, in_world, now_nanos,
  random_below, nanoseconds_to_seconds,
}

abbrev pub default_retry_max : ℤ
default_retry_max = pos 25

-- `int(power) + 15 + (rand.Intn(30) * (count + 1))`, in 64-bit arithmetic, given the random number
unfoldable pub seconds_to_delay : (p : Platform) (count : ℤ) (random : ℕ) → ℤ
seconds_to_delay p count random = wrap64 (
    p.to_int (p.pow (p.of_int count) (p.of_int (pos 4)))
    +ℤ pos 15
    +ℤ wrap64 (pos random *ℤ wrap64 (count +ℤ pos 1)))

-- `time.Duration(seconds) * time.Second`, in nanoseconds
unfoldable pub seconds_duration : ℤ → ℤ
seconds_duration s = wrap64 (s *ℤ pos (10 ^ 9))

unfoldable pub count_after : (p : Platform) → p.Json → ℤ × String
count_after p count = elim (p.as_int count).1 [
  | some e ↦ (pos 0, "failed_at")
  | none ↦ (wrap64 ((p.as_int count).0 +ℤ pos 1), "retried_at")
]

module _ {p : Platform} where
  unfoldable pub retry : Msg p → Bool
  retry m = elim (p.as_bool (p.get m.json "retry")).1 [
    | none ↦ (p.as_bool (p.get m.json "retry")).0
    | some e ↦ false
  ]

  -- The error is ignored, so that this is the number that comes with it.
  unfoldable pub retry_count : Msg p → ℤ
  retry_count m = (p.as_int (p.get m.json "retry_count")).0

  unfoldable pub retry_max : Msg p → ℤ
  retry_max m = elim (p.as_int (p.get m.json "retry_max")).1 [
    | none ↦
        let max = (p.as_int (p.get m.json "retry_max")).0 in
        if leb_ℤ (pos 0) max then max else default_retry_max
    | some e ↦ default_retry_max
  ]

  -- The number that the message counts next, and the field that takes the time.
  unfoldable pub next_count : Msg p → ℤ × String
  unfolding count_after
  next_count m = count_after p (p.get m.json "retry_count")

module _ {p : Platform} (env : Env p) where
  unfoldable pub increment_retry : Io (Frame env) ℤ
  unfolding next_count set_field
  increment_retry = do
    message ← read_message env
    let count = (next_count message).0
    let field = (next_count message).1
    now ← now_nanos env
    modify_message env (set_field field (p.of_string (p.format_time now)))
    modify_message env (set_field "retry_count" (p.json_int count))
    pure count

  -- `for _, retriesExhaustedHandler := range mgr.retriesExhaustedHandlers`
  unfoldable pub run_handlers :
      List (RetriesExhaustedFunc env) → (queue : String) → Error → Io (Frame env) (Unit {0})
  run_handlers [] queue e f = (ok tt, f)
  run_handlers (h ∷ hs) queue e f = elim (h queue e f).0 [
    | none ↦ run_handlers hs queue e (h queue e f).1
    | some q ↦ (panic q, (h queue e f).1)
  ]

  -- The message goes to the retry set; if it cannot, it is not to be acknowledged.
  unfoldable pub schedule_retry : (queue : String) → Error → Io (Frame env) (Unit {0})
  unfolding increment_retry seconds_to_delay seconds_duration set_field
  schedule_retry queue e = do
    modify_message env (set_field "queue" (p.of_string queue))
    modify_message env (set_field "error_message" (p.of_string (text e)))
    count ← increment_retry
    random ← random_below env 30
    let wait = nanoseconds_to_seconds p (seconds_duration (seconds_to_delay p count random))
    now ← now_nanos env
    message ← read_message env
    on_error
        (in_world env (
          env.store.enqueue_retried_message (p.add (nanoseconds_to_seconds p now) wait)
            (to_json message)))
        (λ failure. modify_message env (λ m. record m { ack = false }) >> fail failure)

  unfoldable pub retry_process_error :
      List (RetriesExhaustedFunc env) → (queue : String) → Error → Io (Frame env) (Unit {0})
  unfolding schedule_retry run_handlers retry retry_count retry_max
  retry_process_error handlers queue e = do
    message ← read_message env
    (if not (retry message)
        then fail e
        else if ltb_ℤ (retry_count message) (retry_max message)
        then schedule_retry queue e
        else (run_handlers handlers queue e >> fail e))

  -- A panic of the job, or of what follows it, is taken for its error.
  unfoldable pub retry_middleware :
      List (RetriesExhaustedFunc env) → (queue : String) → JobFunc env → JobFunc env
  unfolding retry_process_error
  retry_middleware handlers queue next =
      recover (on_error next (retry_process_error handlers queue))
        (retry_process_error handlers queue)
