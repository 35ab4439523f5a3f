-- ===== src/Job.antt =====
-- The surroundings of a job: the store, the clock, the random numbers and the log that the manager
-- hands to the middlewares, and the job functions of middleware.go.
use go_workers.Prelude.{ℕ, ◌^◌, String, Option, List}
use go_workers.Prelude.Int.{ℤ, pos}
use go_workers.Effect.{Error, Panic, ok, Io}
use go_workers.External.Platform.{Platform}
use go_workers.Storage.Types.{Store}
use go_workers.Msg.{Msg}

pub record Env (p : Platform) : Type 1 where
  pub World : Type 0
  pub store : Store p.Float World
  -- time.Now().UnixNano()
  pub now : World → ℤ × World
  -- rand.Intn
  pub intn : ℕ → World → ℕ × World
  -- logger.Println, with the durations and the stacks left out
  pub println : List String → World → World

-- A job function runs on the one message that its pointer names, in a world.
pub record Frame {p : Platform} (env : Env p) : Type 0 where
  pub message : Msg p
  pub world : env.World

module _ {p : Platform} (env : Env p) where
  -- func(message *Msg) error
  abbrev pub JobFunc : Type 0
  JobFunc = Io (Frame env) (Unit {0})

  -- func(queue string, message *Msg, err error): it returns nothing, and may panic
  abbrev pub RetriesExhaustedFunc : Type 0
  RetriesExhaustedFunc = String → Error → Frame env → Option Panic × Frame env

  abbrev pub read_message : Io (Frame env) (Msg p)
  read_message f = (ok f.message, f)

  abbrev pub modify_message : (Msg p → Msg p) → Io (Frame env) (Unit {0})
  modify_message g f = (ok tt, record f { message = g f.message })

  -- A call that does not touch the message.
  abbrev pub in_world {ℓ} : {A : Type ℓ} → Io env.World A → Io (Frame env) A
  in_world m f = let (r, w) = m f.world in (r, record f { world = w })

  abbrev pub now_nanos : Io (Frame env) ℤ
  now_nanos f = let (t, w) = env.now f.world in (ok t, record f { world = w })

  abbrev pub random_below : ℕ → Io (Frame env) ℕ
  random_below n f = let (k, w) = env.intn n f.world in (ok k, record f { world = w })

  abbrev pub log : List String → Io (Frame env) (Unit {0})
  log words f = (ok tt, record f { world = env.println words f.world })

-- producer.go: the seconds since the epoch that a count of nanoseconds stands for
unfoldable pub nanoseconds_to_seconds : (p : Platform) → ℤ → p.Float
nanoseconds_to_seconds p n = p.div (p.of_int n) (p.of_int (pos (10 ^ 9)))

-- `nowToSecondsWithNanoPrecision()`
abbrev pub now_seconds : {p : Platform} (env : Env p) → Io env.World p.Float
now_seconds {p} env w = let (t, w') = env.now w in (ok (nanoseconds_to_seconds p t), w')
