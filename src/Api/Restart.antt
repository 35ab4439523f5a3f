-- ===== src/Api/Restart.antt =====
-- Starting the API server registers its endpoints again (api_server.go).
use go_workers.Prelude.{
  ◌≡◌, refl, sym, ap, ◌∙◌, String, true, false, Option, none, some, ◌<>◌, List, [], ◌∷◌, subst,
  Bool-cases, inl, inr,
}
use go_workers.Prelude.Int.{ℤ}
use go_workers.Effect.{
  Error, text, Panic, Outcome, ok, panic, ◌>>=◌, ◌>>◌, Preserves, Preserves-then,
}
use go_workers.Effect.Inverse.{first_ok, bind_ok}
use go_workers.External.Platform.{Platform}
use go_workers.External.Keyspace.{contains}
use go_workers.Api.Server.{
  Http, Endpoint, ApiServer, on_world, print, new_http_server, register_api_endpoints, serve,
  start_api_server, stop_server, stop_api_server, print_error, announcement,
}

-- Documented of a ServeMux: registering a pattern that is there panics, and the patterns stay.
pub record DocumentedMux {W : Type 0} (http : Http W) : Type 0 where
  pub patterns : http.Mux → W → List String
  pub registers :
      (mux : http.Mux) (pattern : String) (endpoint : Endpoint) (w : W)
      → contains pattern (patterns mux w) ≡ false
      → (http.handle_func mux pattern endpoint w).0 ≡ ok tt
  pub registered :
      (mux : http.Mux) (pattern : String) (endpoint : Endpoint) (w : W)
      → contains pattern (patterns mux w) ≡ false
      → patterns mux (http.handle_func mux pattern endpoint w).1 ≡ pattern ∷ patterns mux w
  pub conflicts :
      (mux : http.Mux) (pattern : String) (endpoint : Endpoint) (w : W)
      → contains pattern (patterns mux w) ≡ true
      → (q : Panic) × ((http.handle_func mux pattern endpoint w).0 ≡ panic q)
  pub new_keeps :
      (mux mux' : http.Mux) (addr : String) (w : W)
      → patterns mux (http.new_server addr mux' w).1 ≡ patterns mux w
  pub serving_keeps :
      (mux : http.Mux) (server : http.HttpServer) (w : W)
      → patterns mux (http.listen_and_serve server w).1 ≡ patterns mux w
  pub shutdown_keeps :
      (mux : http.Mux) (server : http.HttpServer) (w : W)
      → patterns mux (http.shutdown server w) ≡ patterns mux w

module _ {W : Type 0} (http : Http W) (d : DocumentedMux http) where
  -- A pattern whose registration returns was not there, and is now.
  was_free :
      (mux : http.Mux) (pattern : String) (endpoint : Endpoint) (w v : W)
      → http.handle_func mux pattern endpoint w ≡ (ok tt, v)
      → d.patterns mux v ≡ pattern ∷ d.patterns mux w
  was_free mux pattern endpoint w v e = elim (Bool-cases (contains pattern (d.patterns mux w))) [
    | inl there ↦
        let clash = d.conflicts mux pattern endpoint w there in
        absurd (cc (sym clash.1 ∙ ap (λ r. r.0) e))
    | inr free ↦
        ap (λ (r : Outcome (Unit {0}) × W). d.patterns mux r.1) (sym e)
        ∙ d.registered mux pattern endpoint w free
  ]

  register-twice :
      (mux : http.Mux) (w v u : W)
      → register_api_endpoints http mux w ≡ (ok tt, v)
      → d.patterns mux u ≡ d.patterns mux v
      → (q : Panic) × ((register_api_endpoints http mux u).0 ≡ panic q)
  unfolding register_api_endpoints
  register-twice mux w v u e same =
      let one =
        first_ok (http.handle_func mux "/stats" Endpoint.stats_endpoint)
          (λ done. http.handle_func mux "/retries" Endpoint.retries_endpoint) w v tt e in
      let first = was_free mux "/stats" Endpoint.stats_endpoint w one.1 one.2 in
      let second = was_free mux "/retries" Endpoint.retries_endpoint one.1 v one.3 in
      let there : contains "/stats" (d.patterns mux u) ≡ true =
        ap (contains "/stats") (same ∙ second ∙ ap (λ ps. "/retries" ∷ ps) first) in
      let clash = d.conflicts mux "/stats" Endpoint.stats_endpoint u there in
      (clash.0, rw (clash.1, ◌>>=◌) refl)

  module _ (p : Platform) (mux : http.Mux) (ps : List String) where
    -- The server has this multiplexer, with these patterns, and its logger leaves them alone.
    record Serving (x : ApiServer p http × W) : Type 0 where
      same_mux : x.0.mux ≡ mux
      same_patterns : d.patterns mux x.1 ≡ ps
      logs : (words : List String) (w : W) → d.patterns mux (x.0.logger words w) ≡ d.patterns mux w

    print-Serving : (words : List String) → Preserves Serving (print p http words)
    print-Serving words (s, w) i = record {
      same_mux = i.same_mux;
      same_patterns = i.logs words w ∙ i.same_patterns;
      logs = i.logs;
    }

    new_http_server-Serving : (addr : String) → Preserves Serving (new_http_server p http addr)
    new_http_server-Serving addr (s, w) i = record {
      same_mux = i.same_mux;
      same_patterns = d.new_keeps mux s.mux addr w ∙ i.same_patterns;
      logs = i.logs;
    }

    listen-Serving :
        (server : http.HttpServer)
        → Preserves Serving (on_world p http (λ s. http.listen_and_serve server))
    listen-Serving server (s, w) i = record {
      same_mux = i.same_mux;
      same_patterns = d.serving_keeps mux server w ∙ i.same_patterns;
      logs = i.logs;
    }

    stop_server-Serving : (o : Option http.HttpServer) → Preserves Serving (stop_server p http o)
    unfolding stop_server
    stop_server-Serving none (s, w) i = i
    stop_server-Serving (some server) (s, w) i = record {
      same_mux = i.same_mux;
      same_patterns = d.shutdown_keeps mux server w ∙ i.same_patterns;
      logs = i.logs;
    }

    print_error-Serving : (e : Option Error) → Preserves Serving (print_error p http e)
    print_error-Serving none x i = i
    print_error-Serving (some e) x i = print-Serving (text e ∷ []) x i

    serve-Serving : (port : ℤ) → Preserves Serving (serve p http port)
    unfolding serve
    serve-Serving port =
        Preserves-then Serving (print p http (announcement p port))
          (λ done. new_http_server p http (":" <> p.format_int port) >>= λ server.
            on_world p http (λ s. http.listen_and_serve server) >>= print_error p http)
          (print-Serving (announcement p port))
          (λ done.
            Preserves-then Serving (new_http_server p http (":" <> p.format_int port))
              (λ server. on_world p http (λ s. http.listen_and_serve server) >>= print_error p http)
              (new_http_server-Serving (":" <> p.format_int port))
              (λ server.
                Preserves-then Serving (on_world p http (λ s. http.listen_and_serve server))
                  (print_error p http) (listen-Serving server) print_error-Serving))

  module _ (p : Platform) where
    stop_server-ok :
        (o : Option http.HttpServer) (x : ApiServer p http × W)
        → stop_server p http o x ≡ (ok tt, (stop_server p http o x).1)
    unfolding stop_server
    stop_server-ok none x = refl
    stop_server-ok (some server) x = refl

    start-panics :
        (port : ℤ) (x : ApiServer p http × W) (mux : http.Mux) (q : Panic)
        → x.0.mux ≡ mux
        → (register_api_endpoints http mux x.1).0 ≡ panic q
        → (start_api_server p http port x).0 ≡ panic q
    unfolding start_api_server
    start-panics port x mux q same e = rw (same, e, ◌>>=◌) refl

    -- When a call that starts the server has returned, the server panics when it is started again,
    -- on whatever port, even after it was stopped: its endpoints are registered once more with the
    -- same multiplexer. For a documented net/http, and a logger that leaves the patterns alone.
    pub restart_panics :
        (s s' : ApiServer p http) (w v : W) (port port' : ℤ)
        → ((words : List String) (u : W) → d.patterns s.mux (s.logger words u) ≡ d.patterns s.mux u)
        → start_api_server p http port (s, w) ≡ (ok tt, (s', v))
        → (q : Panic) × ((stop_api_server p http >> start_api_server p http port') (s', v)).0
            ≡ panic q
    unfolding start_api_server stop_api_server
    restart_panics s s' w v port port' logs e =
        let first =
          first_ok (on_world p http (λ (z : ApiServer p http). register_api_endpoints http z.mux))
            (λ done. serve p http port) (s, w) (s', v) tt e in
        let registered : W = (register_api_endpoints http s.mux w).1 in
        let at : (s, registered) ≡ first.1 =
          ap (λ (r : Outcome (Unit {0}) × (ApiServer p http × W)). r.1) first.2 in
        let done : register_api_endpoints http s.mux w ≡ (ok tt, registered) =
          ap (λ (r : Outcome (Unit {0}) × (ApiServer p http × W)). (r.0, registered)) first.2 in
        let begun : Serving p s.mux (d.patterns s.mux registered) (s, registered) = record {
          same_mux = refl;
          same_patterns = refl;
          logs = logs;
        } in
        let served : Serving p s.mux (d.patterns s.mux registered) (s', v) =
          subst (Serving p s.mux (d.patterns s.mux registered))
            (ap (λ x. (serve p http port x).1) at
              ∙ ap (λ (r : Outcome (Unit {0}) × (ApiServer p http × W)). r.1) first.3)
            (serve-Serving p s.mux (d.patterns s.mux registered) port (s, registered) begun) in
        let stopped = (stop_server p http s'.http_server (s', v)).1 in
        let i =
          stop_server-Serving p s.mux (d.patterns s.mux registered) s'.http_server (s', v) served in
        let clash = register-twice s.mux w registered stopped.1 done i.same_patterns in
        (
          clash.0,
          ap (λ r. r.0)
                (bind_ok (stop_api_server p http) (λ u. start_api_server p http port') (s', v)
                  stopped tt (stop_server-ok s'.http_server (s', v)))
              ∙ start-panics port' stopped s.mux clash.0 i.same_mux clash.1,
        )
