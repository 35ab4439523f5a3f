-- ===== src/Api/Server.antt =====
-- api_stats.go, api_retries.go, api_server.go: what the API answers to a request, and its server.
use go_workers.Prelude.{ℕ, String, ◌<>◌, Option, none, some, List, [], ◌∷◌, ◌++◌}
use go_workers.Prelude.Int.{ℤ}
use go_workers.Effect.{Error, text, ok, Io, pure, ◌>>=◌, ◌>>◌, value, failed, try}
use go_workers.External.Platform.{Platform}
use go_workers.Msg.{Msg}
use go_workers.Job.{Env}
use go_workers.Manager.State.{Manager}
use go_workers.Manager.Report.{ManagerStats, get_stats, get_retries}
use go_workers.Api.{Reader, Url, parse_url_query}

-- What the API asks of a manager.
pub record Managed (p : Platform) (W : Type 0) : Type 0 where
  pub get_stats : Io W (ManagerStats p)
  pub get_retries : (page : ℕ) (page_size : ℤ) (query : String) → Io W (ℤ × List (Msg p))

-- A manager as the API sees it
unfoldable pub managed : {p : Platform} (env : Env p) → Manager env → Managed p env.World
unfolding get_stats get_retries
managed env m = record { get_stats = get_stats env m; get_retries = get_retries env }

-- A response of net/http: the headers set, the last first, and the texts written.
pub record Response : Type 0 where
  pub headers : List (String × String)
  pub body : List String

-- json.NewEncoder with its indentation: what it writes of a value, nothing where it fails.
pub record Encoder (p : Platform) : Type 0 where
  pub encode_stats : List (ManagerStats p) → List String
  pub encode_retries : List (ℤ × List (Msg p)) → List String

module _ {W : Type 0} where
  abbrev set_header : String → String → Io (Response × W) (Unit {0})
  set_header k v (r, w) = (ok tt, (record r { headers = (k, v) ∷ r.headers }, w))

  abbrev pub write : List String → Io (Response × W) (Unit {0})
  write texts (r, w) = (ok tt, (record r { body = r.body ++ texts }, w))

  -- A call that does not touch the response
  abbrev pub beside : {A : Type 0} → Io W A → Io (Response × W) A
  beside m (r, w) = let (o, v) = m w in (o, (r, v))

  abbrev pub allow_all : Io (Response × W) (Unit {0})
  allow_all =
      set_header "Content-Type" "application/json; charset=utf-8"
      >> set_header "Access-Control-Allow-Origin" "*"

module _ {p : Platform} {W : Type 0} (println : List String → W → W) where
  -- The loop over the managers, in the order in which the map gives them: one that fails is logged
  -- and left out.
  unfoldable pub gather :
      {A : Type 0}
      → (words : String) → (Managed p W → Io W A)
      → List (String × Managed p W)
      → Io W (List A)
  gather words call [] = pure []
  gather words call ((uuid, m) ∷ ms) = do
    r ← try (call m)
    elim r [
      | failed e ↦ (λ w. gather words call ms (println (words ∷ text e ∷ []) w))
      | value a ↦ (do rest ← gather words call ms; pure (a ∷ rest))
    ]

  unfoldable pub stats : Encoder p → List (String × Managed p W) → Io (Response × W) (Unit {0})
  unfolding gather
  stats encoder managers = do
    allow_all
    all_stats ←
        beside (
          gather "couldn't retrieve stats for manager:" (λ (m : Managed p W). m.get_stats) managers)
    write (encoder.encode_stats all_stats)

  -- The error of `parseURLQuery` is always nil.
  unfoldable pub retries :
      Encoder p → Reader → Url → List (String × Managed p W) → Io (Response × W) (Unit {0})
  unfolding gather parse_url_query
  retries encoder reader url managers = do
    let asked = parse_url_query reader url
    all_retries ← beside (
        gather "couldn't retrieve retries for manager:"
          (λ (m : Managed p W). m.get_retries asked.0 asked.1 asked.2) managers)
    allow_all
    write (encoder.encode_retries all_retries)

-- The handlers that are registered, by the methods of the server
pub data Endpoint : Type 0 where
  stats_endpoint : Endpoint
  retries_endpoint : Endpoint

-- What net/http does: a ServeMux and an http.Server, by their pointers.
pub record Http (W : Type 0) : Type 1 where
  pub Mux : Type 0
  pub handle_func : Mux → (pattern : String) → Endpoint → Io W (Unit {0})
  pub HttpServer : Type 0
  pub new_server : (addr : String) → Mux → W → HttpServer × W
  pub listen_and_serve : HttpServer → Io W (Option Error)
  pub shutdown : HttpServer → W → W

module _ {W : Type 0} (http : Http W) where
  unfoldable pub register_api_endpoints : http.Mux → Io W (Unit {0})
  register_api_endpoints mux = do
    http.handle_func mux "/stats" Endpoint.stats_endpoint
    http.handle_func mux "/retries" Endpoint.retries_endpoint

  pub record ApiOptions : Type 0 where
    pub logger : Option (List String → W → W)
    pub mux : Option http.Mux

-- What a server that starts prints
abbrev pub announcement : (p : Platform) → (port : ℤ) → List String
announcement p port =
    "APIs are available at" ∷ ("http://localhost:" <> (p.format_int port <> "/")) ∷ []

module _ (p : Platform) {W : Type 0} (http : Http W) where
  -- The logger is what it prints; `globalHTTPServer` is part of the state.
  pub record ApiServer : Type 0 where
    pub managers : List (String × Managed p W)
    pub logger : List String → W → W
    pub mux : http.Mux
    pub http_server : Option http.HttpServer

  unfoldable pub configure_api_server : ApiOptions http → ApiServer → ApiServer
  configure_api_server options s = record s {
    logger = elim options.logger [ none ↦ s.logger | some l ↦ l ];
    mux = elim options.mux [ none ↦ s.mux | some m ↦ m ];
  }

  abbrev pub on_world : {A : Type 0} → (ApiServer → Io W A) → Io (ApiServer × W) A
  on_world m (s, w) = let (o, v) = m s w in (o, (s, v))

  abbrev pub print : List String → Io (ApiServer × W) (Unit {0})
  print words (s, w) = (ok tt, (s, s.logger words w))

  abbrev pub new_http_server : (addr : String) → Io (ApiServer × W) http.HttpServer
  new_http_server addr (s, w) =
      let (server, v) = http.new_server addr s.mux w in
      (ok server, (record s { http_server = some server }, v))

  -- What `ListenAndServe` returns is logged.
  abbrev pub print_error : Option Error → Io (ApiServer × W) (Unit {0})
  print_error none = pure tt
  print_error (some e) = print (text e ∷ [])

  unfoldable pub serve : (port : ℤ) → Io (ApiServer × W) (Unit {0})
  serve port = do
    print (announcement p port)
    server ← new_http_server (":" <> p.format_int port)
    e ← on_world (λ s. http.listen_and_serve server)
    print_error e

  unfoldable pub start_api_server : (port : ℤ) → Io (ApiServer × W) (Unit {0})
  start_api_server port = do on_world (λ s. register_api_endpoints http s.mux); serve port

  unfoldable pub stop_server : Option http.HttpServer → Io (ApiServer × W) (Unit {0})
  stop_server none (s, w) = (ok tt, (s, w))
  stop_server (some server) (s, w) = (ok tt, (s, http.shutdown server w))

  unfoldable pub stop_api_server : Io (ApiServer × W) (Unit {0})
  stop_api_server (s, w) = stop_server s.http_server (s, w)
