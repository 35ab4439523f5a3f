-- ===== src/Dispatch.antt =====
-- job_dispatcher.go and decode.go: jobs by their class, with the arguments decoded into a struct.
pub mod Filled
pub mod Routed
use go_workers.Prelude.{
  String, ◌<>◌, Bool, true, false, Option, none, some, List, [], ◌∷◌, if◌then◌else◌, str_eq,
}
use go_workers.Effect.{
  Error, error, text, Outcome, ok, err, panic, spin, Io, fail, throw, ◌>>=◌, lift,
}
use go_workers.External.Platform.{Platform}
use go_workers.External.Structs.{StructField, Structs}
use go_workers.Msg.{Msg, class, args}
use go_workers.Job.{Env, Frame, JobFunc, in_world, read_message}
use go_workers.Scheduled.{nil_dereference}

-- What the interface{} holds that DecodeSidekiqArgs gets.
pub data Target : Type 0 where
  no_pointer : Target
  nil_pointer : Target
  pointer_to_other : Target
  pointer_to_struct : List StructField → Target

-- What the interface{} holds that RegisterHandler gets: nothing, a pointer to a struct, or another
-- value. A nil pointer to a struct has its type.
pub data ArgsType : Type 0 where
  nothing : ArgsType
  struct_pointer : List StructField → ArgsType
  other_value : ArgsType

-- The loop that fills `values`.
unfoldable pub fill : {A : Type 0} → List StructField → List A → List (String × A)
fill [] arr = []
fill (f ∷ fs) [] = []
fill (f ∷ fs) (a ∷ arr) =
    let skipped = fill fs (a ∷ arr) in
    let taken = fill fs arr in if f.exported then (f.name, a) ∷ taken else skipped

-- `fmt.Errorf` of a text and an error
unfoldable pub wrapped {ℓ} : {A : Type ℓ} → String → Outcome A → Outcome A
wrapped words (err e) = err (error (words <> text e))
wrapped words o = o

abbrev pub then_ok {ℓ κ} : {A : Type ℓ} {B : Type κ} → Outcome A → (A → Outcome B) → Outcome B
then_ok (ok a) f = f a
then_ok (err e) f = err e
then_ok (panic q) f = panic q
then_ok spin f = spin

module _ {p : Platform} (structs : Structs p) where
  -- `DecodeSidekiqArgs`: the struct that the pointer then points to
  unfoldable pub decode_sidekiq_args : p.Json → Target → Outcome structs.Struct
  unfolding fill wrapped
  decode_sidekiq_args args Target.no_pointer =
      err (error "target must be a non-nil pointer to a struct")
  decode_sidekiq_args args Target.nil_pointer =
      err (error "target must be a non-nil pointer to a struct")
  decode_sidekiq_args args Target.pointer_to_other =
      err (error "target must be a pointer to a struct")
  decode_sidekiq_args args (Target.pointer_to_struct fields) =
      then_ok (wrapped "failed to decode JSON array: " (structs.array args)) λ arr.
        then_ok
          (wrapped "failed to marshal intermediate JSON: " (structs.marshal (fill fields arr)))
          λ json. wrapped "failed to unmarshal into target struct: " (structs.unmarshal fields json)

  module _ (env : Env p) where
    -- A handler with the fields of the struct that it takes; `HandleJob` does not see the message.
    pub record HandlerInfo : Type 0 where
      pub handle_job : structs.Struct → Io env.World (Unit {0})
      pub fields : List StructField

    -- The map of handlers by its entries: the first entry of a class is its value.
    pub record JobDispatcher : Type 0 where
      pub handlers : List (String × HandlerInfo)

    unfoldable pub find_handler : String → List (String × HandlerInfo) → Option HandlerInfo
    find_handler k [] = none
    find_handler k ((j, h) ∷ hs) = if str_eq j k then some h else find_handler k hs

    unfoldable pub new_job_dispatcher : JobDispatcher
    new_job_dispatcher = record { handlers = [] }

    -- `t.Kind()` of a nil type panics.
    unfoldable pub register_handler :
        (class : String)
        → (structs.Struct → Io env.World (Unit {0}))
        → ArgsType
        → JobDispatcher
        → Outcome JobDispatcher
    register_handler class handler ArgsType.nothing d = panic nil_dereference
    register_handler class handler ArgsType.other_value d =
        err (error "argsType must be a pointer to a struct")
    register_handler class handler (ArgsType.struct_pointer fields) d = ok (record {
      handlers = (class, record { handle_job = handler; fields = fields }) ∷ d.handlers;
    })

    -- `msg.Args()` is never nil; where its document is, `args.Json` panics.
    unfoldable pub decode_and_handle : HandlerInfo → Msg p → Option p.Json → JobFunc env
    unfolding decode_sidekiq_args wrapped class
    decode_and_handle info msg none = throw nil_dereference
    decode_and_handle info msg (some json) = do
      decoded ← lift (
          wrapped ("failed to decode job args for class " <> (class msg <> ": "))
            (decode_sidekiq_args json (Target.pointer_to_struct info.fields)))
      in_world env (info.handle_job decoded)

    unfoldable pub dispatch_to : Option HandlerInfo → Msg p → JobFunc env
    unfolding decode_and_handle class args
    dispatch_to none msg = fail (error ("no handler registered for job class: " <> class msg))
    dispatch_to (some info) msg = decode_and_handle info msg (args msg)

    unfoldable pub dispatch : JobDispatcher → JobFunc env
    unfolding find_handler dispatch_to
    dispatch d = do msg ← read_message env; dispatch_to (find_handler (class msg) d.handlers) msg
