-- ===== src/Tests/ApiTests.antt =====
-- The theorems on the API at two managers, one of which fails, and at a server started again.
use go_workers.Prelude.{
  ◌≡◌, refl, String, ◌<>◌, none, some, List, [], ◌∷◌, ◌++◌, map, if◌then◌else◌,
}
use go_workers.Prelude.Int.{ℤ, pos}
use go_workers.Effect.{
  error, text, Panic, of_value, Outcome, ok, err, panic, ◌>>◌, Seen, value, failed,
}
use go_workers.External.Keyspace.{contains}
use go_workers.Msg.{Msg}
use go_workers.Manager.Report.{ManagerStats}
use go_workers.Api.{Url}
use go_workers.Api.Server.{
  Managed, Response, Encoder, stats, retries, Http, ApiServer, start_api_server, stop_api_server,
  serve, register_api_endpoints,
}
use go_workers.Api.Gathered.{answered}
use go_workers.Api.Answers.{Answered, answered_by_managers, all_managed, query_ignored}
use go_workers.Api.Restart.{DocumentedMux, restart_panics}
use go_workers.Tests.Instances.{tiny, Memory}
use go_workers.Tests.RetryTests.{surroundings}
use go_workers.Tests.StorageTests.{busy_memory}
use go_workers.Tests.ManagerTests.{running_manager}
use go_workers.Tests.OptionsTests.{reader, third_page}

abbrev some_stats : ManagerStats tiny
some_stats = record {
  name = "m";
  processed = pos 3;
  failed = pos 1;
  jobs = [];
  enqueued = [];
  retry_count = pos 0;
}

-- A world that counts the lines of the log
abbrev Lines : Type 0
Lines = List String

abbrev healthy : Managed tiny Lines
healthy = record {
  get_stats = λ w. (ok some_stats, w);
  get_retries = λ page page_size query w. (ok (pos 2, []), w);
}

abbrev broken : Managed tiny Lines
broken = record {
  get_stats = λ w. (err (error "refused"), w);
  get_retries = λ page page_size query w. (err (error "refused"), w);
}

abbrev both : List (String × Managed tiny Lines)
both = ("u", broken) ∷ ("v", healthy) ∷ []

abbrev encoder : Encoder tiny
encoder = record { encode_stats = map (λ s. s.name); encode_retries = map (λ r. "retries") }

abbrev nothing_said : Response
nothing_said = record { headers = []; body = [] }

abbrev say : List String → Lines → Lines
say words w = words ++ w

-- What a call reads that ends without a panic
abbrev seen : {A : Type 0} → Outcome A → Seen A
seen (ok a) = value a
seen (err e) = failed e
seen _ = failed (error "panic")

abbrev read_stats : Managed tiny Lines → Unit {0} → Seen (ManagerStats tiny)
read_stats m z = seen (m.get_stats []).0

abbrev read_retries : Managed tiny Lines → Unit {0} → Seen (ℤ × List (Msg tiny))
read_retries m z = seen (m.get_retries 0 (pos 0) "" []).0

answered_by_managers_example :
    Answered
      (λ (w : Lines). tt)
      (stats say encoder both)
      nothing_said
      []
      (encoder.encode_stats (answered read_stats both tt))
    × Answered
        (λ (w : Lines). tt)
        (retries say encoder reader third_page both)
        nothing_said
        []
        (encoder.encode_retries (answered read_retries both tt))
answered_by_managers_example =
    answered_by_managers say encoder (λ (w : Lines). tt) (λ words w. refl) both nothing_said []
      read_stats read_retries reader third_page
      ((λ w. (w, refl, refl)), ((λ w. (w, refl, refl)), tt))
      ((λ w. (w, refl, refl)), ((λ w. (w, refl, refl)), tt))

-- The statistics of the manager that fails are left out, and it is in the log.
test_stats : stats say encoder both (nothing_said, []) ≡ (
  ok tt,
  (
    record {
      headers =
          ("Access-Control-Allow-Origin", "*")
          ∷ ("Content-Type", "application/json; charset=utf-8")
          ∷ [];
      body = "m" ∷ [];
    },
    "couldn't retrieve stats for manager:" ∷ "refused" ∷ [],
  ),
)
unfolding stats text
test_stats = refl

abbrev first_page : Url
first_page = record { q = ""; page = ""; page_size = "" }

query_ignored_example :
    retries
      (λ words (w : Memory). w)
      encoder
      reader
      third_page
      (all_managed surroundings (("u", running_manager) ∷ []))
      (nothing_said, busy_memory)
    ≡ retries
        (λ words (w : Memory). w)
        encoder
        reader
        first_page
        (all_managed surroundings (("u", running_manager) ∷ []))
        (nothing_said, busy_memory)
query_ignored_example =
    query_ignored surroundings (λ words w. w) encoder reader third_page first_page
      (("u", running_manager) ∷ []) (nothing_said, busy_memory)

-- One multiplexer; the world is its patterns.
abbrev one_mux : Http Lines
one_mux = record {
  Mux = Unit {0};
  handle_func = λ mux pattern endpoint w.
      if contains pattern w
      then (panic (of_value "multiple registrations"), w)
      else (ok tt, pattern ∷ w);
  HttpServer = String;
  new_server = λ addr mux w. (addr, w);
  listen_and_serve = λ server w. (ok (some (error "http: Server closed")), w);
  shutdown = λ server w. w;
}

one_mux-DocumentedMux : DocumentedMux one_mux
one_mux-DocumentedMux = record {
  patterns = λ mux w. w;
  registers = λ mux pattern endpoint w e. rw e refl;
  registered = λ mux pattern endpoint w e. rw e refl;
  conflicts = λ mux pattern endpoint w e. (of_value "multiple registrations", rw e refl);
  new_keeps = λ mux mux' addr w. refl;
  serving_keeps = λ mux server w. refl;
  shutdown_keeps = λ mux server w. refl;
}

abbrev idle : ApiServer tiny one_mux
idle = record { managers = []; logger = λ words w. w; mux = tt; http_server = none }

abbrev served : ApiServer tiny one_mux
served = record idle { http_server = some (":" <> tiny.format_int (pos 8)) }

starts :
    start_api_server tiny one_mux (pos 8) (idle, []) ≡ (ok tt, (served, "/retries" ∷ "/stats" ∷ []))
unfolding start_api_server register_api_endpoints serve
starts = refl

restart_panics_example :
    (q : Panic) × ((stop_api_server tiny one_mux >> start_api_server tiny one_mux (pos 8))
        (served, "/retries" ∷ "/stats" ∷ [])).0
      ≡ panic q
restart_panics_example =
    restart_panics one_mux one_mux-DocumentedMux tiny idle served [] ("/retries" ∷ "/stats" ∷ [])
      (pos 8) (pos 8) (λ words u. refl) starts
