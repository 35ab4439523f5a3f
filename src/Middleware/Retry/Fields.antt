-- ===== src/Middleware/Retry/Fields.antt =====
-- The fields of a message that is scheduled again (middleware_retry.go).
use go_workers.Prelude.{
  ◌≡◌, refl, ap, ◌∙◌, String, Bool, true, false, ◌||◌, none, List, arith, str_eq, if◌then◌else◌,
}
use go_workers.Prelude.Int.{ltb_ℤ}
use go_workers.Effect.{Error, text, Outcome, ok, err, panic, spin}
use go_workers.External.Platform.{Platform, Lawful}
use go_workers.Msg.{Msg}
use go_workers.Job.{Env, Frame, RetriesExhaustedFunc}
use go_workers.Middleware.Retry.{
  retry, retry_count, retry_max, next_count, count_after, schedule_retry, retry_process_error,
}
use go_workers.Middleware.Retry.Stored.{
  noted, counted, finish, enqueue, schedule_retry-eq, process, process_scheduled,
}

-- The keys that a retry writes.
abbrev pub written : String → Bool
written k =
    str_eq "queue" k
    || str_eq "error_message" k
    || str_eq "failed_at" k
    || str_eq "retried_at" k
    || str_eq "retry_count" k

module _ {p : Platform} (l : Lawful p) (env : Env p) (queue : String) (e : Error) (f : Frame env)
    (object : p.is_object f.message.json ≡ true) where
  queued : p.Json
  queued = p.set f.message.json "queue" (p.of_string queue)

  queued-object : p.is_object queued ≡ true
  unfolding queued
  queued-object = l.set-object f.message.json "queue" (p.of_string queue) object

  noted-object : p.is_object (noted env queue e f).json ≡ true
  unfolding noted queued
  noted-object = l.set-object queued "error_message" (p.of_string (text e)) queued-object

  get-noted :
      (k : String)
      → p.get (noted env queue e f).json k ≡ (
          if str_eq "error_message" k
          then p.of_string (text e)
          else if str_eq "queue" k
          then p.of_string queue
          else p.get f.message.json k)
  unfolding noted queued
  get-noted k = rw (
    l.get-set queued "error_message" k (p.of_string (text e)) queued-object,
    l.get-set f.message.json "queue" k (p.of_string queue) object,
  )

  next_count-noted : next_count (noted env queue e f) ≡ next_count f.message
  unfolding next_count
  next_count-noted = ap (count_after p) (get-noted "retry_count")

  timed : p.Json
  timed =
      p.set (noted env queue e f).json (next_count (noted env queue e f)).1
        (p.of_string (p.format_time (env.now f.world).0))

  timed-object : p.is_object timed ≡ true
  unfolding timed
  timed-object =
      l.set-object (noted env queue e f).json (next_count (noted env queue e f)).1
        (p.of_string (p.format_time (env.now f.world).0)) noted-object

  get-counted :
      (k : String)
      → p.get (counted env queue e f).json k ≡ (
          if str_eq "retry_count" k
          then p.json_int (next_count f.message).0
          else if str_eq (next_count f.message).1 k
          then p.of_string (p.format_time (env.now f.world).0)
          else p.get (noted env queue e f).json k)
  unfolding counted timed
  get-counted k = rw (← next_count-noted) (
      rw (
        l.get-set timed "retry_count" k (p.json_int (next_count (noted env queue e f)).0)
            timed-object,
        l.get-set (noted env queue e f).json (next_count (noted env queue e f)).1 k
            (p.of_string (p.format_time (env.now f.world).0)) noted-object,
      ))

  counted-object : p.is_object (counted env queue e f).json ≡ true
  unfolding counted timed
  counted-object =
      l.set-object timed "retry_count" (p.json_int (next_count (noted env queue e f)).0)
        timed-object

  next_key : (k : String) → written k ≡ false → str_eq (next_count f.message).1 k ≡ false
  unfolding next_count
  next_key k h = ground arith

  next_key-ne :
      (k : String)
      → str_eq "failed_at" k ≡ false
      → str_eq "retried_at" k ≡ false
      → str_eq (next_count f.message).1 k ≡ false
  unfolding next_count
  next_key-ne k h g = ground arith

  json-finish : (o : Outcome (Unit {0})) (m : Msg p) → (finish o m).1.json ≡ m.json
  unfolding finish
  json-finish (ok u) m = refl
  json-finish (err x) m = refl
  json-finish (panic x) m = refl
  json-finish spin m = refl

  json-schedule : (schedule_retry env queue e f).1.message.json ≡ (counted env queue e f).json
  json-schedule =
      ap (λ (z : Outcome (Unit {0}) × Frame env). z.1.message.json)
        (schedule_retry-eq env queue e f)
      ∙ json-finish (enqueue env queue e f).0 (counted env queue e f)

  -- A job that may be retried leaves its queue, its error and its next count in the message, and
  -- every field that the middleware does not write as it was, whether or not the store takes it.
  pub retry_fields :
      (handlers : List (RetriesExhaustedFunc env))
      → retry f.message ≡ true
      → ltb_ℤ (retry_count f.message) (retry_max f.message) ≡ true
      → let j = (retry_process_error env handlers queue e f).1.message.json in
        (p.is_object j ≡ true)
        × (p.as_string (p.get j "queue") ≡ (queue, none))
        × (p.as_string (p.get j "error_message") ≡ (text e, none))
        × (p.as_int (p.get j "retry_count") ≡ ((next_count f.message).0, none))
        × ((k : String) → written k ≡ false → p.get j k ≡ p.get f.message.json k)
  unfolding process
  retry_fields handlers r k =
      rw (process_scheduled env handlers queue e f r k, json-schedule)
        (
          counted-object,
          rw (get-counted "queue", next_key-ne "queue" refl refl, get-noted "queue")
              (l.as_string-of_string queue),
          rw
              (
                get-counted "error_message",
                next_key-ne "error_message" refl refl,
                get-noted "error_message",
              )
              (l.as_string-of_string (text e)),
          rw (get-counted "retry_count") (l.as_int-json_int _),
          λ key h. rw (get-counted key, next_key key h, get-noted key) (ground arith),
        )
