-- ===== src/Middleware/Logging.antt =====
-- middleware_logging.go: the log of each job, without its durations and stacks.
use go_workers.Prelude.{String, ◌<>◌, Option, none, some, [], ◌∷◌}
use go_workers.Effect.{Error, text, Io, fail, throw, ◌>>=◌, ◌>>◌, recover, on_error}
use go_workers.External.Platform.{Platform}
use go_workers.Msg.{jid, args, json_text}
use go_workers.Scheduled.{nil_dereference}
use go_workers.Job.{Env, Frame, JobFunc, read_message, log}

module _ {p : Platform} (env : Env p) where
  unfoldable pub log_process_error : (prefix : String) → Error → Io (Frame env) (Unit {0})
  log_process_error prefix e = do
    log env (prefix ∷ "fail:" ∷ [])
    log env (prefix ∷ "error:" ∷ text e ∷ [])

  -- `message.Args().ToJson()` of a nil document panics.
  unfoldable pub log_args : (prefix : String) → Option p.Json → Io (Frame env) (Unit {0})
  log_args prefix none = throw nil_dereference
  log_args prefix (some json) = log env (prefix ∷ "args:" ∷ json_text p json ∷ [])

  unfoldable pub log_middleware : (queue : String) → JobFunc env → JobFunc env
  unfolding log_process_error log_args
  log_middleware queue next = do
    message ← read_message env
    let prefix = queue <> (" JID-" <> jid message)
    log env (prefix ∷ "start" ∷ [])
    log_args prefix (args message)
    recover
        (on_error next (λ e. log_process_error prefix e >> fail e)
          >> log env (prefix ∷ "done:" ∷ []))
        (λ e. log_process_error prefix e >> fail e)
