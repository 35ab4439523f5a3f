-- ===== src/Worker.antt =====
-- worker.go, fetcher.go and task_runner.go: a queue's worker, the fetcher that moves messages to
-- the queue in progress, and the runners that work on them.
pub mod Held
pub mod Effects
pub mod System
use go_workers.Prelude.{
  ℕ, zero, suc, String, ◌<>◌, ◌/◌, ◌^◌, Bool, true, false, Option, none, some, List, [], ◌∷◌,
  if◌then◌else◌,
}
use go_workers.Prelude.Int.{ℤ, pos, pos_part, leb_ℤ}
use go_workers.Effect.{
  Error, no_message, text, Outcome, ok, err, panic, spin, Io, pure, fail, ◌>>=◌, ◌>>◌, Seen, value,
  failed, try, recover,
}
use go_workers.External.Platform.{Platform}
use go_workers.Msg.{Msg, new_msg, original_json}
use go_workers.Job.{Env, Frame, JobFunc, RetriesExhaustedFunc}

-- A runner and the message that it works on.
pub record TaskRunner (p : Platform) : Type 0 where
  pub tid : String
  pub current_msg : Option (Msg p)

pub record SimpleFetcher : Type 0 where
  pub queue : String
  pub process_id : String
  pub is_active : Bool
  pub is_closed : Bool

-- The fetcher is nil until the worker has started.
pub record Worker {p : Platform} (env : Env p) : Type 0 where
  pub queue : String
  pub in_progress_queue : String
  -- the handler reads the handlers of exhausted retries of its manager when it runs
  pub handler : List (RetriesExhaustedFunc env) → JobFunc env
  pub concurrency : ℤ
  pub runners : List (TaskRunner p)
  pub running : Bool
  pub fetcher : Option SimpleFetcher

unfoldable pub new_simple_fetcher : (queue process_id : String) (is_active : Bool) → SimpleFetcher
new_simple_fetcher queue process_id is_active = record {
  queue = queue;
  process_id = process_id;
  is_active = is_active;
  is_closed = false;
}

-- `InProgressQueue`
unfoldable pub in_progress_queue : SimpleFetcher → String
in_progress_queue f = f.queue <> (":" <> (f.process_id <> ":inprogress"))

unfoldable pub set_active : Bool → SimpleFetcher → SimpleFetcher
set_active active f = record f { is_active = active }

unfoldable pub in_progress_of : {p : Platform} → List (TaskRunner p) → List (Msg p)
in_progress_of [] = []
in_progress_of (r ∷ rs) = elim r.current_msg [
  | none ↦ in_progress_of rs
  | some m ↦ m ∷ in_progress_of rs
]

module _ {p : Platform} (env : Env p) where
  unfoldable pub new_worker :
      (queue : String) (concurrency : ℤ)
      → (List (RetriesExhaustedFunc env) → JobFunc env)
      → Worker env
  new_worker queue concurrency handler = record {
    queue = queue;
    in_progress_queue = "";
    handler = handler;
    concurrency = if leb_ℤ concurrency (pos 0) then pos 1 else concurrency;
    runners = [];
    running = false;
    fetcher = none;
  }

  -- `inProgressMessages` of a worker
  unfoldable pub worker_messages : Worker env → List (Msg p)
  unfolding in_progress_of
  worker_messages w = in_progress_of w.runners

  -- `process`: a panic of the handler is its error.
  unfoldable pub process_message : JobFunc env → JobFunc env
  process_message handler = recover handler (λ e. fail e)

  abbrev log_line : List String → Io env.World (Unit {0})
  log_line words w = (ok tt, env.println words w)

  -- `sendMessage`: what goes into the channel of messages.
  unfoldable pub send_message : String → Io env.World (Option (Msg p))
  send_message message = elim (new_msg {p = p} message) [
    | ok m ↦ pure (some m)
    | err e ↦
        (log_line ("ERR: Couldn't create message from" ∷ message ∷ ":" ∷ text e ∷ []) >> pure none)
    | panic q ↦ (λ w. (panic q, w))
    | spin ↦ (λ w. (spin, w))
  ]

  -- `tryFetchMessage`
  unfoldable pub try_fetch_message : SimpleFetcher → Io env.World (Option (Msg p))
  unfolding send_message in_progress_queue
  try_fetch_message f = do
    r ← try (env.store.dequeue_message f.queue (in_progress_queue f) 1)
    elim r [
      | value message ↦ send_message message
      | failed no_message ↦ pure none
      | failed e ↦ (log_line ("ERR: " ∷ f.queue ∷ text e ∷ []) >> pure none)
    ]

  -- `Acknowledge`: the store's error is ignored.
  unfoldable pub acknowledge : SimpleFetcher → Msg p → Io env.World (Unit {0})
  unfolding in_progress_queue original_json
  acknowledge f message = do
    try (env.store.acknowledge_message (in_progress_queue f) (original_json message))
    pure tt

  -- `inprogressMessages`: no messages if they cannot be listed.
  unfoldable pub inprogress_messages : SimpleFetcher → Io env.World (List String)
  unfolding in_progress_queue
  inprogress_messages f = do
    r ← try (env.store.list_messages (in_progress_queue f))
    elim r [
      | value messages ↦ pure messages
      | failed e ↦ (log_line ("ERR: " ∷ text e ∷ []) >> pure [])
    ]

  -- The loop of `processOldMessages`: each message waits for a runner that is ready, so that what
  -- it hands out is the messages in their order.
  unfoldable pub send_all : List String → Io env.World (List (Msg p))
  unfolding send_message
  send_all [] = pure []
  send_all (message ∷ messages) = do
    sent ← send_message message
    rest ← send_all messages
    elim sent [ none ↦ pure rest | some m ↦ pure (m ∷ rest) ]

  unfoldable pub process_old_messages : SimpleFetcher → Io env.World (List (Msg p))
  unfolding inprogress_messages send_all
  process_old_messages f = do messages ← inprogress_messages f; send_all messages

  -- The message as a runner begins with it: the time is in seconds.
  unfoldable pub begin : Msg p → env.World → Frame env
  begin message w =
      let (t, w') = env.now w in
      record { message = record message { started_at = pos (pos_part t / 10 ^ 9) }; world = w' }

  -- `if err := w.process(msg); err != nil { w.logger.Println("ERR:", err) }`
  unfoldable pub logged : Outcome (Unit {0}) → env.World → env.World
  logged (err e) w = env.println ("ERR:" ∷ text e ∷ []) w
  logged o w = w

  -- A runner's turn with a message, and then the worker's: the job runs, an error is logged, and
  -- the message is acknowledged if the job has not taken that away.
  unfoldable pub run_message : JobFunc env → SimpleFetcher → Msg p → Io env.World (Unit {0})
  unfolding process_message acknowledge begin
  run_message handler f message w =
      let (o, after) = process_message handler (begin message w) in
      elim o [
        | spin ↦ (spin, after.world)
        | panic q ↦ (panic q, after.world)
        | ok u ↦
            if after.message.ack
            then acknowledge f after.message after.world
            else (ok tt, after.world)
        | err e ↦
            let logged = env.println ("ERR:" ∷ text e ∷ []) after.world in
            if after.message.ack then acknowledge f after.message logged else (ok tt, logged)
      ]
