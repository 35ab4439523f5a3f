-- ===== src/Dispatch/Routed.antt =====
-- Which handler a job goes to (job_dispatcher.go).
use go_workers.Prelude.{
  ◌≡◌, refl, ap, sym, subst, String, ◌<>◌, Bool, true, false, Option, none, some, List, ◌∷◌, str_eq,
  if◌then◌else◌,
}
use go_workers.Effect.{error, text, Outcome, ok, err, panic, spin, Io, lift, ◌>>=◌}
use go_workers.Effect.Inverse.{first_ok}
use go_workers.Dispatch.Filled.{wrapped-ok}
use go_workers.External.Platform.{Platform}
use go_workers.External.Structs.{StructField, Structs}
use go_workers.Msg.{class, args}
use go_workers.Scheduled.{nil_dereference}
use go_workers.Job.{Env, Frame, in_world}
use go_workers.Dispatch.{
  Target, ArgsType, decode_sidekiq_args, wrapped, HandlerInfo, JobDispatcher, find_handler,
  decode_and_handle, dispatch_to, new_job_dispatcher, register_handler, dispatch,
}

module _ {p : Platform} (structs : Structs p) (env : Env p) where
  ok_inj : {A : Type 0} {x y : A} → ◌≡◌ {A = Outcome A} (ok x) (ok y) → x ≡ y
  ok_inj e = cc e

  in_world-ok :
      (m : Io env.World (Unit {0})) (fr fr' : Frame env)
      → in_world env m fr ≡ (ok tt, fr')
      → (m fr.world ≡ (ok tt, fr'.world)) × (fr'.message ≡ fr.message)
  in_world-ok m fr fr' e = (ap (λ r. (r.0, r.1.world)) e, sym (ap (λ r. r.1.message) e))

  -- What a handler makes of a message: it is called once, on what the arguments decode to, and its
  -- end is that of the dispatch. Without a document for arguments the dispatch panics, and it ends
  -- with an error of the decoding.
  abbrev handled_value :
      (structs.Struct → Io env.World (Unit {0}))
      → Frame env
      → Outcome structs.Struct
      → Outcome (Unit {0}) × Frame env
  handled_value h fr (ok v) = ((h v fr.world).0, record fr { world = (h v fr.world).1 })
  handled_value h fr (err e) = (
    err (error (("failed to decode job args for class " <> (class fr.message <> ": ")) <> text e)),
    fr,
  )
  handled_value h fr (panic q) = (panic q, fr)
  handled_value h fr spin = (spin, fr)

  abbrev pub handled :
      (structs.Struct → Io env.World (Unit {0}))
      → List StructField
      → Frame env
      → Option p.Json
      → Outcome (Unit {0}) × Frame env
  handled h fields fr none = (panic nil_dereference, fr)
  handled h fields fr (some json) =
      handled_value h fr (decode_sidekiq_args structs json (Target.pointer_to_struct fields))

  handled_value_lem :
      (h : structs.Struct → Io env.World (Unit {0})) (fr : Frame env) (o : Outcome structs.Struct)
      → (lift (wrapped ("failed to decode job args for class " <> (class fr.message <> ": ")) o)
            >>= λ v. in_world env (h v))
          fr
        ≡ handled_value h fr o
  unfolding wrapped
  handled_value_lem h fr (ok v) = refl
  handled_value_lem h fr (err e) = refl
  handled_value_lem h fr (panic q) = refl
  handled_value_lem h fr spin = refl

  decode_and_handle_lem :
      (info : HandlerInfo structs env) (fr : Frame env) (j : Option p.Json)
      → decode_and_handle structs env info fr.message j fr
        ≡ handled info.handle_job info.fields fr j
  unfolding decode_and_handle
  decode_and_handle_lem info fr none = refl
  decode_and_handle_lem info fr (some json) =
      handled_value_lem info.handle_job fr
        (decode_sidekiq_args structs json (Target.pointer_to_struct info.fields))

  handled_alone :
      (k : String) (h : structs.Struct → Io env.World (Unit {0})) (fields : List StructField)
      (d d' : JobDispatcher structs env) (fr : Frame env)
      → d' ≡ record { handlers = (k, record { handle_job = h; fields = fields }) ∷ d.handlers }
      → (b : Bool) → str_eq k (class fr.message) ≡ b
      → dispatch structs env d' fr
        ≡ (if b then handled h fields fr (args fr.message) else dispatch structs env d fr)
  unfolding dispatch dispatch_to find_handler
  handled_alone k h fields d d' fr q true e =
      let info : HandlerInfo structs env = record { handle_job = h; fields = fields } in
      rw (q, e) (decode_and_handle_lem info fr (args fr.message))
  handled_alone k h fields d d' fr q false e = rw (q, e) refl

  -- A handler registered for a class, with a pointer to a struct, gets the messages of that class
  -- from then on, whatever was registered for it before: it is called on the struct that the
  -- arguments decode to and its end is the end of the dispatch, or the error of the decoding is.
  -- The messages of other classes are dispatched as before. A dispatcher that is new knows no
  -- class, and leaves the message and the world alone.
  pub registered_routes :
      (k : String) (h : structs.Struct → Io env.World (Unit {0})) (fields : List StructField)
      (d d' : JobDispatcher structs env) (fr : Frame env)
      → register_handler structs env k h (ArgsType.struct_pointer fields) d ≡ ok d'
      → (dispatch structs env d' fr ≡ (
          if str_eq k (class fr.message)
          then handled h fields fr (args fr.message)
          else dispatch structs env d fr))
        × (dispatch structs env (new_job_dispatcher structs env) fr
            ≡ (err (error ("no handler registered for job class: " <> class fr.message)), fr))
  unfolding register_handler find_handler dispatch dispatch_to new_job_dispatcher
  registered_routes k h fields d d' fr e =
      (handled_alone k h fields d d' fr (ok_inj (sym e)) (str_eq k (class fr.message)) refl, refl)

  -- What a dispatch without an error has done with the handler and the message.
  abbrev pub Handled : Option (HandlerInfo structs env) → Frame env → Frame env → Type 0
  Handled o fr fr' =
      (info : HandlerInfo structs env) × (json : p.Json) × (v : structs.Struct) × (o ≡ some info)
      × (args fr.message ≡ some json)
      × (decode_sidekiq_args structs json (Target.pointer_to_struct info.fields) ≡ ok v)
      × (info.handle_job v fr.world ≡ (ok tt, fr'.world))
      × (fr'.message ≡ fr.message)

  decode_and_handle-Handled :
      (info : HandlerInfo structs env) (fr fr' : Frame env) (j : Option p.Json)
      → args fr.message ≡ j
      → decode_and_handle structs env info fr.message j fr ≡ (ok tt, fr')
      → Handled (some info) fr fr'
  unfolding decode_and_handle
  decode_and_handle-Handled info fr fr' none a e = cc e
  decode_and_handle-Handled info fr fr' (some json) a e =
      let words = "failed to decode job args for class " <> (class fr.message <> ": ") in
      let decoded = decode_sidekiq_args structs json (Target.pointer_to_struct info.fields) in
      let one =
        first_ok (lift (wrapped words decoded)) (λ v. in_world env (info.handle_job v)) fr fr' tt
          e in
      let v = wrapped-ok words decoded one.0 (ap (λ r. r.0) one.2) in
      let q = in_world-ok (info.handle_job one.0) fr fr' (
        subst (λ g. in_world env (info.handle_job one.0) g ≡ (ok tt, fr'))
          (sym (ap (λ r. r.1) one.2)) one.3) in
      (info, json, one.0, refl, a, v, q.0, q.1)

  dispatch_to-Handled :
      (o : Option (HandlerInfo structs env)) (fr fr' : Frame env)
      → dispatch_to structs env o fr.message fr ≡ (ok tt, fr')
      → Handled o fr fr'
  unfolding dispatch_to
  dispatch_to-Handled none fr fr' e = cc e
  dispatch_to-Handled (some info) fr fr' e =
      decode_and_handle-Handled info fr fr' (args fr.message) refl e

  -- A dispatch that returns no error has called the handler registered for the class of the message,
  -- on the struct that its arguments decode to, the handler has returned no error, the world is as
  -- it left it, and the message is as before.
  pub dispatched_decoded :
      (d : JobDispatcher structs env) (fr fr' : Frame env)
      → dispatch structs env d fr ≡ (ok tt, fr')
      → Handled (find_handler structs env (class fr.message) d.handlers) fr fr'
  unfolding dispatch
  dispatched_decoded d fr fr' e =
      dispatch_to-Handled (find_handler structs env (class fr.message) d.handlers) fr fr' e
