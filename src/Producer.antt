-- ===== src/Producer.antt =====
-- producer.go: a job is put on its queue, or scheduled if its time is still to come.
pub mod Placed
use go_workers.Prelude.{String, Bool, true, false, Option, none, some, if◌then◌else◌}
use go_workers.Prelude.Int.{ℤ, pos}
use go_workers.Effect.{
  Error, Outcome, ok, err, panic, spin, Io, pure, fail, ◌>>=◌, ◌>>◌, Seen, value, failed, try, lift,
}
use go_workers.External.Platform.{Platform}
use go_workers.Job.{Env, now_seconds}
use go_workers.Random.{Randomness, generate_jid}
use go_workers.Options.{Options, process_options, process_options_with_redis_client}

pub record EnqueueOptions (p : Platform) : Type 0 where
  pub retry_count : ℤ
  pub retry_max : ℤ
  pub retry : Bool
  pub at : p.Float

pub record EnqueueData (p : Platform) (Args : Type 0) : Type 0 where
  pub queue : String
  pub class : String
  pub args : Args
  pub jid : String
  pub enqueued_at : p.Float
  pub options : EnqueueOptions p

-- What the producer takes from the packages json and crypto/rand: the text of a job, and random
-- bytes.
pub record Writer {p : Platform} (env : Env p) (Args : Type 0) : Type 0 where
  pub marshal : EnqueueData p Args → Outcome String
  pub random : Randomness env.World

abbrev pub default_options : {p : Platform} → p.Float → EnqueueOptions p
default_options at = record { retry_count = pos 0; retry_max = pos 0; retry = false; at = at }

module _ {p : Platform} (env : Env p) {Args : Type 0} (writer : Writer env Args) where
  -- The identifier comes with an error only where a message could not be scheduled.
  unfoldable pub enqueue_with_context :
      (queue class : String) → Args → EnqueueOptions p → Io env.World (String × Option Error)
  enqueue_with_context queue class args opts = do
    now ← now_seconds env
    jid ← (λ w. let (j, w') = generate_jid writer.random w in (ok j, w'))
    let job : EnqueueData p Args = record {
      queue = queue;
      class = class;
      args = args;
      jid = jid;
      enqueued_at = now;
      options = opts;
    }
    bytes ← lift (writer.marshal job)
    (if p.ltf now opts.at
        then (do
          r ← try (env.store.enqueue_scheduled_message opts.at bytes)
          elim r [ value u ↦ pure (jid, none) | failed e ↦ pure (jid, some e) ])
        else (do
          env.store.create_queue queue
          env.store.enqueue_message_now queue bytes
          pure (jid, none)))

  unfoldable pub enqueue_with_options :
      (queue class : String) → Args → EnqueueOptions p → Io env.World (String × Option Error)
  unfolding enqueue_with_context
  enqueue_with_options queue class args opts = enqueue_with_context queue class args opts

  unfoldable pub enqueue : (queue class : String) → Args → Io env.World (String × Option Error)
  unfolding enqueue_with_options
  enqueue queue class args = do
    now ← now_seconds env
    enqueue_with_options queue class args (default_options {p = p} now)

  unfoldable pub enqueue_in :
      (queue class : String) (in_seconds : p.Float) → Args → Io env.World (String × Option Error)
  unfolding enqueue_with_options
  enqueue_in queue class in_seconds args = do
    now ← now_seconds env
    enqueue_with_options queue class args (default_options {p = p} (p.add now in_seconds))

  unfoldable pub enqueue_at :
      (queue class : String) (at : p.Float) → Args → Io env.World (String × Option Error)
  unfolding enqueue_with_options
  enqueue_at queue class at args =
      enqueue_with_options queue class args (default_options {p = p} at)

-- A producer has the options of a client that is connected.
pub record Producer : Type 0 where
  pub opts : Options

abbrev pub with_options : Outcome Options → Outcome Producer
with_options (ok o) = ok (record { opts = o })
with_options (err e) = err e
with_options (panic q) = panic q
with_options spin = spin

unfoldable pub new_producer : Options → Outcome Producer
new_producer options = with_options (process_options options)

unfoldable pub new_producer_with_redis_client : Options → (client : Bool) → Outcome Producer
new_producer_with_redis_client options client =
    with_options (process_options_with_redis_client client options)
