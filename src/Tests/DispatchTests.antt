-- ===== src/Tests/DispatchTests.antt =====
-- The theorems on the dispatch of jobs, with structs that keep the name of the first field they got.
use go_workers.Prelude.{
  inr, ◌≡◌, refl, String, ◌<>◌, Bool, true, false, not, ◌&&◌, List, [], ◌∷◌, All, str_eq, inl,
  if◌then◌else◌,
}
use go_workers.Prelude.Int.{pos}
use go_workers.Effect.{error, Outcome, ok, err, Io}
use go_workers.External.Structs.{StructField, Structs, Among, Matched}
use go_workers.Msg.{class, args}
use go_workers.Job.{Frame}
use go_workers.Dispatch.{
  Target, ArgsType, fill, wrapped, decode_sidekiq_args, JobDispatcher, find_handler,
  decode_and_handle, dispatch_to, new_job_dispatcher, register_handler, dispatch,
}
use go_workers.Dispatch.Filled.{exported_names, paired, decodes_in_order, renamed_dropped}
use go_workers.Dispatch.Routed.{handled, Handled, registered_routes, dispatched_decoded}
use go_workers.Tests.Instances.{Document, Fields, tiny, Memory}
use go_workers.Tests.StorageTests.{busy_memory}
use go_workers.Tests.RetryTests.{surroundings}

abbrev values : Fields → List Document
values Fields.end = []
values (Fields.entry k v rest) = v ∷ values rest

-- An array is written as an object here.
abbrev elements : Document → Outcome (List Document)
elements (Document.object fs) = ok (values fs)
elements j = err (error "type assertion to []interface{} failed")

abbrev first_key : List (String × Document) → Outcome String
first_key [] = ok ""
first_key ((k, v) ∷ rest) = ok k

abbrev first_fields : Structs tiny
first_fields = record {
  Struct = String;
  array = elements;
  marshal = first_key;
  unmarshal = λ fs json. ok json;
}

abbrev unset : String → StructField → Bool
unset v f = not (str_eq v f.json_name && not (str_eq v ""))

not_and_false : (b : Bool) → not (b && false) ≡ true
not_and_false true = refl
not_and_false false = refl

unset-first :
    (fs : List StructField) (entries : List (String × Document)) (text v : String) (f : StructField)
    → Among f fs
    → first_key entries ≡ ok text
    → ◌≡◌ {A = Outcome String} (ok text) (ok v)
    → All (λ e. str_eq e.0 f.json_name ≡ false) entries
    → unset v f ≡ true
unset-first fs [] text v f among m u h =
    let q : v ≡ "" = cc (m, u) in rw q (not_and_false (str_eq "" f.json_name))
unset-first fs ((k, d) ∷ rest) text v f among m u h = let q : v ≡ k = cc (m, u) in rw (q, h.0) refl

abbrev first_fields-Matched : Matched first_fields
first_fields-Matched = record { equal_fold = str_eq; is_zero = unset; unmatched = unset-first }

abbrev plain : StructField
plain = record { name = "Name"; exported = true; json_name = "Name" }

abbrev hidden : StructField
hidden = record { name = "secret"; exported = false; json_name = "secret" }

abbrev tagged : StructField
tagged = record { name = "Title"; exported = true; json_name = "heading" }

abbrev greeting : List StructField
greeting = hidden ∷ plain ∷ tagged ∷ []

abbrev two_args : Document
two_args =
    Document.object
      (Fields.entry "0" (Document.text "Bob") (Fields.entry "1" (Document.text "Sir") Fields.end))

decodes : decode_sidekiq_args first_fields two_args (Target.pointer_to_struct greeting) ≡ ok "Name"
unfolding decode_sidekiq_args fill wrapped
decodes = refl

decodes_in_order_example :
    (arr : List Document) × (json : String) × (first_fields.array two_args ≡ ok arr)
    × (first_fields.marshal (paired (exported_names greeting) arr) ≡ ok json)
    × (first_fields.unmarshal greeting json ≡ ok "Name")
decodes_in_order_example = decodes_in_order first_fields two_args greeting "Name" decodes

third : Among tagged greeting
third = inr (inr (inl refl))

renamed_dropped_example : first_fields-Matched.is_zero "Name" tagged ≡ true
renamed_dropped_example =
    renamed_dropped first_fields first_fields-Matched two_args greeting tagged "Name" third
      ((λ e. refl), ((λ e. refl), ((λ e. refl), tt))) decodes

abbrev greets : String → Io Memory (Unit {0})
greets name w = (ok tt, w)

abbrev greeter : JobDispatcher first_fields surroundings
greeter = record { handlers = ("Greet", record { handle_job = greets; fields = greeting }) ∷ [] }

abbrev greet_job : Frame surroundings
greet_job = record {
  message = record {
    json =
        Document.object
          (Fields.entry "class" (Document.text "Greet") (Fields.entry "args" two_args Fields.end));
    original = "job";
    ack = true;
    started_at = pos 5;
  };
  world = busy_memory;
}

registers :
    register_handler first_fields surroundings "Greet" greets
      (ArgsType.struct_pointer greeting)
      (new_job_dispatcher first_fields surroundings)
    ≡ ok greeter
unfolding register_handler new_job_dispatcher
registers = refl

registered_routes_example :
    (dispatch first_fields surroundings greeter greet_job ≡ (
      if str_eq "Greet" (class greet_job.message)
      then handled first_fields surroundings greets greeting greet_job (args greet_job.message)
      else dispatch first_fields surroundings
          (new_job_dispatcher first_fields surroundings)
          greet_job))
    × (dispatch first_fields surroundings (new_job_dispatcher first_fields surroundings) greet_job
        ≡ (
          err (error ("no handler registered for job class: " <> class greet_job.message)),
          greet_job,
        ))
registered_routes_example =
    registered_routes first_fields surroundings "Greet" greets greeting
      (new_job_dispatcher first_fields surroundings) greeter greet_job registers

dispatches : dispatch first_fields surroundings greeter greet_job ≡ (ok tt, greet_job)
unfolding dispatch dispatch_to decode_and_handle find_handler class args decode_sidekiq_args fill
    wrapped
dispatches = refl

dispatched_decoded_example :
    Handled first_fields surroundings
      (find_handler first_fields surroundings (class greet_job.message) greeter.handlers)
      greet_job
      greet_job
dispatched_decoded_example =
    dispatched_decoded first_fields surroundings greeter greet_job greet_job dispatches
