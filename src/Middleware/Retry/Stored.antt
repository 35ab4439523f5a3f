-- ===== src/Middleware/Retry/Stored.antt =====
-- What the retry middleware leaves in the store and in the message (middleware_retry.go).
use go_workers.Prelude.{
  ◌≡◌, ◌≢◌, refl, ap, sym, ◌∙◌, String, true, false, List, arith, Bool-cases, inl, inr, ◌⊎◌,
}
use go_workers.Prelude.Int.{ltb_ℤ}
use go_workers.Effect.{Error, text, Outcome, ok, err, panic, spin}
use go_workers.External.Platform.{Platform}
use go_workers.Msg.{Msg, set_field, to_json}
use go_workers.Job.{Env, Frame, RetriesExhaustedFunc, nanoseconds_to_seconds}
use go_workers.Middleware.Retry.{
  retry, retry_count, retry_max, seconds_to_delay, seconds_duration, next_count, run_handlers,
  schedule_retry, retry_process_error,
}

-- The end of the call: the store's error takes the acknowledgement away.
unfoldable pub finish : {p : Platform} → Outcome (Unit {0}) → Msg p → Outcome (Unit {0}) × Msg p
finish (ok u) m = (ok u, m)
finish (err x) m = (err x, record m { ack = false })
finish (panic x) m = (panic x, m)
finish spin m = (spin, m)

-- The store has been asked to take the message that is left for a retry, at some time, and this is
-- its answer and the world that it has left.
abbrev pub Asked : {p : Platform} (env : Env p) → Outcome (Unit {0}) → Frame env → Type 0
Asked {p} env o g =
    (t : p.Float) × (w : env.World) × (env.store.enqueue_retried_message t (to_json g.message) w
      ≡ (o, g.world))

finish-same :
    {p : Platform} (o : Outcome (Unit {0})) (m : Msg p)
    → ((finish o m).0 ≡ o) × (to_json (finish o m).1 ≡ to_json m)
unfolding finish to_json
finish-same (ok u) m = (refl, refl)
finish-same (err x) m = (refl, refl)
finish-same (panic x) m = (refl, refl)
finish-same spin m = (refl, refl)

module _ {p : Platform} (env : Env p) (queue : String) (e : Error) (f : Frame env) where
  -- The message with its queue and its error noted.
  unfoldable pub noted : Msg p
  unfolding set_field
  noted =
      set_field "error_message" (p.of_string (text e))
        (set_field "queue" (p.of_string queue) f.message)

  -- The message with its count and its time noted too.
  unfoldable pub counted : Msg p
  unfolding noted set_field
  counted =
      set_field "retry_count" (p.json_int (next_count noted).0)
        (set_field (next_count noted).1 (p.of_string (p.format_time (env.now f.world).0)) noted)

  unfoldable pub world_before : env.World
  world_before = (env.now (env.intn 30 (env.now f.world).1).1).1

  unfoldable pub priority : p.Float
  priority =
      let drawn = env.intn 30 (env.now f.world).1 in
      p.add (nanoseconds_to_seconds p (env.now drawn.1).0) (
        nanoseconds_to_seconds p
          (seconds_duration (seconds_to_delay p (next_count noted).0 drawn.0)))

  unfoldable pub enqueue : Outcome (Unit {0}) × env.World
  unfolding counted world_before priority
  enqueue = env.store.enqueue_retried_message priority (to_json counted) world_before

  finish-ok :
      (o : Outcome (Unit {0})) (m : Msg p)
      → (finish o m).0 ≡ ok tt
      → (o ≡ ok tt) × ((finish o m).1 ≡ m)
  unfolding finish
  finish-ok (ok u) m h = (refl, refl)
  finish-ok (err x) m h = cc
  finish-ok (panic x) m h = cc
  finish-ok spin m h = cc

  counted-ack : counted.ack ≡ f.message.ack
  unfolding counted
  counted-ack = refl

  pub schedule_retry-eq : schedule_retry env queue e f ≡ (
    (finish enqueue.0 counted).0,
    record { message = (finish enqueue.0 counted).1; world = enqueue.1 },
  )
  unfolding schedule_retry enqueue finish
  schedule_retry-eq = ground arith

  -- The call ends as the store answers.
  pub schedule_retry-Asked :
      Asked env (schedule_retry env queue e f).0 (schedule_retry env queue e f).1
  unfolding enqueue
  schedule_retry-Asked =
      let q = finish-same enqueue.0 counted in
      rw (schedule_retry-eq, q.0, q.1) (priority, world_before, refl)

  schedule_retry-stored :
      (schedule_retry env queue e f).0 ≡ ok tt
      → env.store.enqueue_retried_message priority
          (to_json (schedule_retry env queue e f).1.message)
          world_before
        ≡ (ok tt, (schedule_retry env queue e f).1.world)
  unfolding enqueue
  schedule_retry-stored done =
      let q = finish-ok enqueue.0 counted (sym (ap (λ z. z.0) schedule_retry-eq) ∙ done) in
      rw (schedule_retry-eq, q.1) λ i. (q.0 i, enqueue.1)

module _ {p : Platform} (env : Env p) (handlers : List (RetriesExhaustedFunc env)) (queue : String)
    (e : Error) (f : Frame env) where
  unfoldable pub process : Outcome (Unit {0}) × Frame env
  process = retry_process_error env handlers queue e f

  -- The three ways of retryProcessError.
  pub process_refused : retry f.message ≡ false → process ≡ (err e, f)
  unfolding process retry_process_error
  process_refused h = ground arith

  pub process_scheduled :
      retry f.message ≡ true
      → ltb_ℤ (retry_count f.message) (retry_max f.message) ≡ true
      → process ≡ schedule_retry env queue e f
  unfolding process retry_process_error
  process_scheduled h k = ground arith

  unfoldable pub exhausted : Outcome (Unit {0}) → Outcome (Unit {0})
  exhausted (ok u) = err e
  exhausted o = o

  pub process-exhausted :
      retry f.message ≡ true
      → ltb_ℤ (retry_count f.message) (retry_max f.message) ≡ false
      → process ≡ (
        exhausted (run_handlers env handlers queue e f).0,
        (run_handlers env handlers queue e f).1,
      )
  unfolding process retry_process_error exhausted
  process-exhausted h k = ground arith

  exhausted-ne-ok : (o : Outcome (Unit {0})) → exhausted o ≢ ok tt
  unfolding exhausted
  exhausted-ne-ok (ok u) h = cc
  exhausted-ne-ok (err x) h = cc
  exhausted-ne-ok (panic x) h = cc
  exhausted-ne-ok spin h = cc

  -- A failed job whose error is taken away is in the retry set: the store has accepted the very
  -- message that is left, at some time.
  pub nil_means_stored :
      (retry_process_error env handlers queue e f).0 ≡ ok tt
      → (t : p.Float) × (w : env.World) × (env.store.enqueue_retried_message t
            (to_json (retry_process_error env handlers queue e f).1.message)
            w
          ≡ (ok tt, (retry_process_error env handlers queue e f).1.world))
  unfolding process
  nil_means_stored done = elim (Bool-cases (retry f.message)) [
    | inl r ↦ elim (Bool-cases (ltb_ℤ (retry_count f.message) (retry_max f.message))) [
      | inl k ↦ rw (process_scheduled r k) (
        priority env queue e f,
        world_before env queue e f,
        schedule_retry-stored env queue e f (sym (ap (λ z. z.0) (process_scheduled r k)) ∙ done),
      )
      | inr k ↦ absurd (exhausted-ne-ok _ (sym (ap (λ z. z.0) (process-exhausted r k)) ∙ done))
    ]
    | inr r ↦ cc (sym (ap (λ z. z.0) (process_refused r)) ∙ done)
  ]

  -- The end of a job that may be retried: the store has taken the message that is left, which keeps
  -- its acknowledgement, or it has refused that message, which is then not to be acknowledged.
  abbrev pub Answered : Outcome (Unit {0}) × Frame env → Type 0
  Answered r =
      ((r.0 ≡ ok tt) × Asked env (ok tt) r.1 × (r.1.message.ack ≡ f.message.ack))
      ⊎ ((x : Error) × (r.0 ≡ err x) × Asked env (err x) r.1 × (r.1.message.ack ≡ false))

  -- A failed job that may be retried, with a store that answers: either the store has taken the
  -- message that is left, the error is taken away and the acknowledgement is as the job left it; or
  -- the store has refused that message, the job ends with the store's error, and the message is not
  -- to be acknowledged.
  pub ack_unless_refused :
      ((t : p.Float) (m : String) (w : env.World)
        → ((env.store.enqueue_retried_message t m w).0 ≡ ok tt)
          ⊎ ((x : Error) × ((env.store.enqueue_retried_message t m w).0 ≡ err x)))
      → retry f.message ≡ true
      → ltb_ℤ (retry_count f.message) (retry_max f.message) ≡ true
      → Answered (retry_process_error env handlers queue e f)
  unfolding process enqueue finish counted to_json
  ack_unless_refused answers r k =
      let end = finish {p = p} in
      let m = counted env queue e f in
      let t = priority env queue e f in
      let w = world_before env queue e f in
      let last = (enqueue env queue e f).1 in
      rw (process_scheduled r k, schedule_retry-eq env queue e f)
        (elim (answers t (to_json m) w) [
          | inl o ↦
              let q = ap (λ z. end z m) o in
              inl (ap (λ z. z.0) q, rw q (t, w, (λ i. (o i, last))), ap (λ z. z.1.ack) q)
          | inr (x, o) ↦
              let q = ap (λ z. end z m) o in
              inr (x, ap (λ z. z.0) q, rw q (t, w, (λ i. (o i, last))), ap (λ z. z.1.ack) q)
        ])
