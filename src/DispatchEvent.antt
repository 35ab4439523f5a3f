-- ===== src/DispatchEvent.antt =====
-- dispatch-event/main.go: a program on this library that takes the events of a Ruby service.
pub mod Malformed
use go_workers.Prelude.{
  ℕ, String, ◌<>◌, Bool, true, false, Option, none, some, List, [], ◌∷◌, if◌then◌else◌, str_eq,
}
use go_workers.Prelude.Int.{ℤ, pos}
use go_workers.Effect.{
  Error, error, text, Outcome, ok, err, panic, spin, Io, pure, fail, throw, ◌>>=◌, ◌>>◌, Seen,
  value, failed, try, unfinished,
}
use go_workers.External.Platform.{Platform}
use go_workers.Msg.{Msg, args, json_text}
use go_workers.Job.{Env, Frame, JobFunc, RetriesExhaustedFunc, read_message}
use go_workers.Middleware.Chain.{MiddlewareFunc, Middlewares}
use go_workers.Middleware.Logging.{log_middleware}
use go_workers.Middleware.Retry.{retry_middleware}
use go_workers.Middleware.Stats.{stats_middleware}
use go_workers.Options.{Options}
use go_workers.Random.{Randomness}
use go_workers.Scheduled.{nil_dereference}
use go_workers.Manager.State.{Manager, add_worker, set_retries_exhausted_handlers}
use go_workers.Manager.Created.{Configured, manager_with_options}

-- What an interface{} holds that encoding/json has filled: a text, or a value of another type.
pub data Dynamic : Type 0 where
  a_string : String → Dynamic
  no_string : Dynamic

-- The map is nil where there is no event; its first entry of a key is its value.
pub record JobArgs : Type 0 where
  pub event_hash : Option (List (String × Dynamic))
  pub event_class_name : String
  pub slack_app_installation_id : ℤ
  pub slack_user_id : Option ℤ

-- `value, ok := hash[key].(string)`: a missing key holds nil, which is no text.
unfoldable pub string_at : (key : String) → List (String × Dynamic) → Option String
string_at key [] = none
string_at key ((k, Dynamic.a_string s) ∷ hash) =
    let rest = string_at key hash in if str_eq k key then some s else rest
string_at key ((k, Dynamic.no_string) ∷ hash) =
    let rest = string_at key hash in if str_eq k key then none else rest

-- `!ok || value == ""`
abbrev pub is_missing : Option String → Bool
is_missing none = true
is_missing (some s) = str_eq s ""

-- What the program takes from the packages json, log and time.
pub record Surrounding {p : Platform} (env : Env p) : Type 0 where
  pub unmarshal : String → Outcome JobArgs
  pub printf : List String → env.World → env.World
  pub sleep : env.World → env.World

module _ {p : Platform} (env : Env p) (around : Surrounding env) where
  abbrev pub say : List String → JobFunc env
  say words f = (ok tt, record f { world = around.printf words f.world })

  abbrev pub wait : JobFunc env
  wait f = (ok tt, record f { world = around.sleep f.world })

  -- What follows the check of the event: it is logged, and that is all.
  unfoldable pub process_event : JobArgs → List (String × Dynamic) → JobFunc env
  unfolding string_at
  process_event job hash =
      if is_missing (string_at "type" hash)
      then say ("Event hash missing type" ∷ [])
      else if is_missing (string_at "source_service" hash)
      then say ("Event hash missing source_service" ∷ [])
      else (say ("Processing event: class=" ∷ job.event_class_name ∷ []) >> wait)

  unfoldable pub check_args : JobArgs → JobFunc env
  unfolding process_event
  check_args job = elim job.event_hash [
    | none ↦ fail (error "event_hash is required")
    | some hash ↦
        if str_eq job.event_class_name ""
        then fail (error "event_class_name is required")
        else process_event job hash
  ]

  abbrev pub malformed : Error → Error
  malformed e = error ("malformed job data: " <> text e)

  unfoldable pub parsed : Outcome JobArgs → JobFunc env
  unfolding check_args
  parsed (ok job) = check_args job
  parsed (err e) = say ("Error parsing job arguments:" ∷ text e ∷ []) >> fail (malformed e)
  parsed (panic q) = throw q
  parsed spin = unfinished

  unfoldable pub event_dispatcher_processor : JobFunc env
  unfolding parsed
  event_dispatcher_processor f = elim (args f.message) [
    | none ↦ (panic nil_dereference, f)
    | some json ↦ parsed (around.unmarshal (json_text p json)) f
  ]

  -- The first middleware of the program, without its durations
  unfoldable pub event_logging : JobFunc env → JobFunc env
  event_logging next = do
    say ("Starting EventDispatcherJob processing" ∷ [])
    r ← try next
    elim r [
      | value u ↦ say ("Finished EventDispatcherJob processing" ∷ [])
      | failed e ↦
          (say ("Error processing EventDispatcherJob:" ∷ text e ∷ [])
            >> say ("Finished EventDispatcherJob processing" ∷ [])
            >> fail e)
    ]

  abbrev pub event_middlewares : Middlewares env
  event_middlewares =
      (λ queue handlers. event_logging)
      ∷ (λ queue handlers. log_middleware env queue)
      ∷ (λ queue handlers. retry_middleware env handlers queue)
      ∷ (λ queue handlers. stats_middleware env queue)
      ∷ []

  abbrev pub exhausted_handler : RetriesExhaustedFunc env
  exhausted_handler queue e f = (
    none,
    record f { world = around.printf ("Job exhausted retries:" ∷ queue ∷ text e ∷ []) f.world },
  )

  abbrev pub event_options : Options
  event_options = record {
    process_id = "event_dispatcher_worker";
    namespace = "sidekiq";
    poll_interval = pos 0;
    database = pos 0;
    password = "";
    pool_size = pos 10;
    server_addr = "localhost:6379";
    sentinel_addrs = "";
    redis_master_name = "";
    manager_display_name = "";
    manager_start_inactive = false;
    heartbeat = none;
  }

  -- `main` up to the call of `Run`: the manager with its worker.
  unfoldable pub event_manager :
      {H : Type 0} → Randomness env.World → (by_priority : H) → Io env.World (Configured env H)
  unfolding manager_with_options set_retries_exhausted_handlers add_worker
  event_manager {H = H} random by_priority = do
    m ← manager_with_options env H random by_priority event_options
    pure (record m {
      manager =
          add_worker "default" (pos 10) event_dispatcher_processor event_middlewares
            (set_retries_exhausted_handlers (exhausted_handler ∷ []) m.manager);
    })
