-- ===== src/Lib.antt =====
-- go-workers2, a library of background workers that keep their jobs in Redis.
--
-- A producer (producer.go) puts jobs, JSON messages, on queues or in a schedule of a store
-- (storage/). A manager (manager.go) runs a worker per queue: its fetcher moves a message to the
-- queue in progress and hands it to a task runner, which runs the job under a pipeline of
-- middlewares (middleware*.go); the retry middleware puts a failed job in the set of retries, and
-- the poll of scheduled.go moves due messages back to their queues. Heartbeats tell the managers
-- which processes have died, whose messages in progress are put back.
--
-- The files, and the code that they are about:
--   * Prelude: shared names, native numbers, text, Go's int as a signed integer with its
--     wrap-around written out (wrap64).
--   * Effect: calls over a world that end with a value, an error or a panic (Outcome), with try,
--     recover and on_error for the ways in which Go handles them; Effect/Rules has the contract of
--     a remote call: it does what its specification says, or fails with all or nothing done.
--   * External: what is not in the repository. Platform: float64, strconv and go-simplejson, with
--     laws; Redis: the commands of go-redis over a database of any kind, and what the Redis
--     documentation says of them (Documented), in terms of the pure functions of Keyspace.
--   * Storage: storage/keys.go, storage/storage.go and storage/redis.go, an operation per method;
--     Storage/Spec and Storage/Laws say what a store promises of jobs.
--   * Msg: msg.go. Job: the surroundings of a job function, and middleware.go's JobFunc.
--   * Middleware: middleware.go, middleware_retry.go, middleware_stats.go, middleware_logging.go.
--   * Scheduled: scheduled.go, run for a number of ticks. Producer: producer.go.
--   * Dispatch: job_dispatcher.go and decode.go. What reflect and encoding/json do is a parameter
--     (External/Structs).
--   * Worker: worker.go, fetcher.go and task_runner.go, what happens to one message. Worker/System
--     is the worker at work: where each goroutine stands, and the steps of start, Fetch, work, quit
--     and SetActive, two of which meet on a channel. A step takes any goroutine that can go on.
--   * Manager: manager.go and heartbeat.go (State: workers and activation; Report: GetStats and
--     GetRetries; Beat: the heartbeat; Expired: handleAllExpiredHeartbeats; Priority:
--     activateManagerByPriority, whose sort.Slice is a parameter that sorts; Pulse: startHeartbeat,
--     for a number of ticks before the context is cancelled; Lifecycle: the steps of Run, of the
--     goroutines that it starts and of Stop).
--   * Recovery: a worker that dies (Worker/System) and the manager that expires its heartbeat
--     (Manager/Expired) together.
--   * Random: the identifiers of heartbeat.go, producer.go and task_runner.go, over crypto/rand and
--     math/rand as parameters. Manager/Created: the constructors and the hooks of manager.go.
--     Manager/Started: how Run starts the workers, each with its runners.
--   * DispatchEvent: dispatch-event/main.go, a program on this library.
--   * Options: options.go. Api: parseURLQuery of api_retries.go, the registry of api_server.go;
--     Api/Server: the handlers of api_stats.go and api_retries.go, and the server.
--   * Tests: a platform and a Redis server in memory, and the theorems at concrete inputs.
--
-- Loops on a store run on fuel and end in the outcome `spin` without it: the requeue loop has as
-- much as the store's field says, the poll as much as its argument; more than there are messages
-- is enough, because each round takes one out.
--
-- A message's document belongs to its message alone, as in the code, so that a message is a value.
-- Where goroutines meet (Worker/System and Manager/Lifecycle) a reachable state is what any order of
-- steps leads to, and locks are part of the state; elsewhere a call runs alone. In Manager/Lifecycle
-- a call of quit is one step and a worker that was told can end; that a worker and a caller of quit
-- can also block each other is seen in Worker/System, which looks at one worker.
-- Contexts, apart from the one that Run is given, and the durations and stack traces of the log are
-- left out. Not modelled are the command line tools, which print what the API answers, and the
-- program of the tutorial.
pub mod Prelude
pub mod Effect
pub mod External
pub mod Storage
pub mod Msg
pub mod Job
pub mod Middleware
pub mod Scheduled
pub mod Producer
pub mod Options
pub mod Worker
pub mod Manager
pub mod Api
pub mod Dispatch
pub mod Recovery
pub mod Random
pub mod DispatchEvent
mod Tests
