-- ===== src/Producer/Placed.antt =====
-- Where a job is after the producer has enqueued it (producer.go).
use go_workers.Prelude.{
  ◌≡◌, refl, String, true, false, Option, none, some, inl, inr, ◌⊎◌, arith, Bool-cases,
  if◌then◌else◌,
}
use go_workers.Effect.{Error, Outcome, ok, err}
use go_workers.External.Platform.{Platform}
use go_workers.Storage.Laws.{StoreLaws}
use go_workers.Storage.Spec.{Jobs, now, created, scheduled_at}
use go_workers.Job.{Env, nanoseconds_to_seconds}
use go_workers.Random.{generate_jid}
use go_workers.Producer.{EnqueueOptions, EnqueueData, Writer, enqueue_with_context}

module _ {p : Platform} (env : Env p) {Args : Type 0} (writer : Writer env Args)
    (queue class : String) (args : Args) (opts : EnqueueOptions p) (w : env.World) where
  -- The time, the identifier and the record of the job.
  abbrev pub time : p.Float
  time = nanoseconds_to_seconds p (env.now w).0

  abbrev pub jid : String
  jid = (generate_jid writer.random (env.now w).1).0

  abbrev pub start : env.World
  start = (generate_jid writer.random (env.now w).1).1

  abbrev pub job : EnqueueData p Args
  job = record {
    queue = queue;
    class = class;
    args = args;
    jid = jid;
    enqueued_at = time;
    options = opts;
  }

  abbrev pub result : Outcome (String × Option Error) × env.World
  result = enqueue_with_context env writer queue class args opts w

  -- What enqueueing `bytes` is to the jobs of a store.
  abbrev pub placed : String → Jobs p.Float → Jobs p.Float
  placed bytes j =
      if p.ltf time opts.at
      then (scheduled_at p.ltf opts.at bytes j).1
      else (now queue bytes (created queue j).1).1

  abbrev schedule : String → Outcome (Unit {0}) × env.World
  schedule bytes = env.store.enqueue_scheduled_message opts.at bytes start

  abbrev create : Outcome (Unit {0}) × env.World
  create = env.store.create_queue queue start

  abbrev push : String → Outcome (Unit {0}) × env.World
  push bytes = env.store.enqueue_message_now queue bytes create.1

  -- The store has answered with this error, and it is reported.
  abbrev pub Refused : String → Error → Type 0
  Refused bytes e =
      ((p.ltf time opts.at ≡ true)
        × ((schedule bytes).0 ≡ err e)
        × (result ≡ (ok (jid, some e), (schedule bytes).1)))
      ⊎ ((p.ltf time opts.at ≡ false)
          × ((create.0 ≡ err e) ⊎ ((create.0 ≡ ok tt) × ((push bytes).0 ≡ err e)))
          × (result.0 ≡ err e))

  later :
      (bytes : String)
      → writer.marshal job ≡ ok bytes
      → p.ltf time opts.at ≡ true
      → (((schedule bytes).0 ≡ ok tt) → result ≡ (ok (jid, none), (schedule bytes).1))
        × ((e : Error)
            → (schedule bytes).0 ≡ err e
            → result ≡ (ok (jid, some e), (schedule bytes).1))
  unfolding enqueue_with_context
  later bytes h t = (λ o. ground arith, λ e o. ground arith)

  at_once :
      (bytes : String)
      → writer.marshal job ≡ ok bytes
      → p.ltf time opts.at ≡ false
      → ((e : Error) → create.0 ≡ err e → result.0 ≡ err e)
        × (create.0 ≡ ok tt → (e : Error) → (push bytes).0 ≡ err e → result.0 ≡ err e)
        × (create.0 ≡ ok tt → (push bytes).0 ≡ ok tt → result ≡ (ok (jid, none), (push bytes).1))
  unfolding enqueue_with_context
  at_once bytes h t = (λ e o. ground arith, λ c e o. ground arith, λ c o. ground arith)

  module _ (jobs : env.World → Jobs p.Float) (laws : StoreLaws p.ltf env.store jobs)
      (still : jobs start ≡ jobs w) (bytes : String) (text : writer.marshal job ≡ ok bytes) where
    -- Enqueueing a job ends: its identifier comes back without an error and the job is in the
    -- schedule if its time is after now, else at the front of its queue, which is known; or the
    -- store has refused to schedule it, to know its queue or to push it, and that error is
    -- reported, next to the identifier if it is of the schedule and else alone. For a store that
    -- keeps its contract, a job that JSON can write, and a clock and random identifiers that leave
    -- the jobs alone.
    pub enqueue_places :
        ((result.0 ≡ ok (jid, none)) × (jobs result.1 ≡ placed bytes (jobs w)))
        ⊎ ((e : Error) × Refused bytes e)
    enqueue_places = elim (Bool-cases (p.ltf time opts.at)) [
      | inl t ↦ elim (laws.schedule opts.at bytes start) [
        | inl (o, v) ↦ rw ((later bytes text t).0 o, t, v, still) (inl (refl, refl))
        | inr (e, o, _, _) ↦ inr (e, inl (t, o, (later bytes text t).1 e o))
      ]
      | inr t ↦ elim (laws.create queue start) [
        | inl (o, v) ↦ elim (laws.enqueue_now queue bytes create.1) [
          | inl (o', v') ↦ rw ((at_once bytes text t).2 o o', t, v', v, still) (inl (refl, refl))
          | inr (e, o', _, _) ↦ inr (e, inr (t, inr (o, o'), (at_once bytes text t).1 o e o'))
        ]
        | inr (e, o, _, _) ↦ inr (e, inr (t, inl o, (at_once bytes text t).0 e o))
      ]
    ]
