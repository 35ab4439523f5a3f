-- ===== src/Api/Answers.antt =====
-- What the API answers (api_stats.go, api_retries.go): the reports of the managers that are known.
use go_workers.Prelude.{ℕ, ◌≡◌, refl, ap, String, List, [], ◌∷◌, ◌++◌, map, All}
use go_workers.Prelude.Int.{ℤ}
use go_workers.Effect.{Outcome, ok, Io, ◌>>=◌, ◌>>◌, Seen}
use go_workers.Effect.Inverse.{bind_ok}
use go_workers.External.Platform.{Platform}
use go_workers.Msg.{Msg}
use go_workers.Job.{Env}
use go_workers.Manager.State.{Manager}
use go_workers.Manager.Report.{ManagerStats, get_retries}
use go_workers.Api.{Reader, Url, parse_url_query}
use go_workers.Api.Server.{
  Managed, managed, Response, Encoder, beside, write, allow_all, gather, stats, retries,
}
use go_workers.Api.Gathered.{Reads, answered, gather_lem, gather_same}

abbrev pub allowed : List (String × String) → List (String × String)
allowed hs =
    ("Access-Control-Allow-Origin", "*") ∷ ("Content-Type", "application/json; charset=utf-8") ∷ hs

-- A handler ends well, with headers for JSON that any origin may read, has written this, and has
-- left what is read alone.
abbrev pub Answered :
    {W V : Type 0}
    → (W → V)
    → Io (Response × W) (Unit {0})
    → Response
    → W
    → (texts : List String) → Type 0
Answered {W = W} view handler r w texts =
    (v : W) × (handler (r, w)
      ≡ (ok tt, (record { headers = allowed r.headers; body = r.body ++ texts }, v)))
    × (view v ≡ view w)

module _ {p : Platform} {W V : Type 0} (println : List String → W → W) (encoder : Encoder p)
    (view : W → V) (logs : (said : List String) (w : W) → view (println said w) ≡ view w)
    (ms : List (String × Managed p W)) (r : Response) (w : W) where
  stats_lem :
      (read : Managed p W → V → Seen (ManagerStats p))
      → All (λ (e : String × Managed p W). Reads view e.1.get_stats (read e.1)) ms
      → Answered view
          (stats println encoder ms)
          r
          w
          (encoder.encode_stats (answered read ms (view w)))
  unfolding stats
  stats_lem read a =
      let all =
        gather_lem println "couldn't retrieve stats for manager:" (λ (m : Managed p W). m.get_stats)
          view logs read ms w a in
      let headed : Response = record r { headers = allowed r.headers } in
      (
        all.0,
        bind_ok
            (beside (
              gather println "couldn't retrieve stats for manager:"
                (λ (m : Managed p W). m.get_stats) ms))
            (λ found. write (encoder.encode_stats found)) (headed, w) (headed, all.0)
            (answered read ms (view w))
            (ap (λ (o : Outcome (List (ManagerStats p)) × W). (o.0, (headed, o.1))) all.1),
        all.2,
      )

  retries_lem :
      (reader : Reader) (url : Url) (read : Managed p W → V → Seen (ℤ × List (Msg p)))
      → All
          (λ (e : String × Managed p W).
            Reads view
              (e.1.get_retries
                (parse_url_query reader url).0
                (parse_url_query reader url).1
                (parse_url_query reader url).2)
              (read e.1))
          ms
      → Answered view
          (retries println encoder reader url ms)
          r
          w
          (encoder.encode_retries (answered read ms (view w)))
  unfolding retries
  retries_lem reader url read a =
      let asked = parse_url_query reader url in
      let call : Managed p W → Io W (ℤ × List (Msg p)) =
        λ (m : Managed p W). m.get_retries asked.0 asked.1 asked.2 in
      let all =
        gather_lem println "couldn't retrieve retries for manager:" call view logs read ms w a in
      (
        all.0,
        bind_ok (beside (gather println "couldn't retrieve retries for manager:" call ms))
            (λ found. allow_all >> write (encoder.encode_retries found)) (r, w) (r, all.0)
            (answered read ms (view w))
            (ap (λ (o : Outcome (List (ℤ × List (Msg p))) × W). (o.0, (r, o.1))) all.1),
        all.2,
      )

  -- Where every manager that is registered reads its statistics and its retries, or an error, of
  -- something that reading and the log leave alone, a request for either ends well. The response
  -- has what all the managers report that do not fail, in order, and nothing of the others.
  pub answered_by_managers :
      (read_stats : Managed p W → V → Seen (ManagerStats p))
      (read_retries : Managed p W → V → Seen (ℤ × List (Msg p))) (reader : Reader) (url : Url)
      → All (λ (e : String × Managed p W). Reads view e.1.get_stats (read_stats e.1)) ms
      → All
          (λ (e : String × Managed p W).
            Reads view
              (e.1.get_retries
                (parse_url_query reader url).0
                (parse_url_query reader url).1
                (parse_url_query reader url).2)
              (read_retries e.1))
          ms
      → Answered view
          (stats println encoder ms)
          r
          w
          (encoder.encode_stats (answered read_stats ms (view w)))
        × Answered view
            (retries println encoder reader url ms)
            r
            w
            (encoder.encode_retries (answered read_retries ms (view w)))
  answered_by_managers read_stats read_retries reader url a b =
      (stats_lem read_stats a, retries_lem reader url read_retries b)

module _ {p : Platform} (env : Env p) where
  abbrev pub all_managed : List (String × Manager env) → List (String × Managed p env.World)
  all_managed ms = map (λ (e : String × Manager env). (e.0, managed env e.1)) ms

  same_retries :
      (a b : ℕ × ℤ × String) (ms : List (String × Manager env))
      → All
          (λ (e : String × Managed p env.World).
            e.1.get_retries a.0 a.1 a.2 ≡ e.1.get_retries b.0 b.1 b.2)
          (all_managed ms)
  unfolding managed get_retries
  same_retries a b [] = tt
  same_retries a b (m ∷ ms) = (refl, same_retries a b ms)

module _ {p : Platform} (env : Env p) (println : List String → env.World → env.World)
    (encoder : Encoder p) (reader : Reader) where
  -- The managers of this package answer any two requests for retries in the same way, whatever
  -- text, page and page size they ask for.
  pub query_ignored :
      (url url' : Url) (ms : List (String × Manager env)) (x : Response × env.World)
      → retries println encoder reader url (all_managed env ms) x
        ≡ retries println encoder reader url' (all_managed env ms) x
  unfolding retries
  query_ignored url url' ms x =
      let a = parse_url_query reader url in
      let b = parse_url_query reader url' in
      ap
        (λ (g : Io env.World (List (ℤ × List (Msg p)))).
          (beside g >>= λ found. allow_all >> write (encoder.encode_retries found)) x)
        (gather_same println "couldn't retrieve retries for manager:"
          (λ (m : Managed p env.World). m.get_retries a.0 a.1 a.2)
          (λ (m : Managed p env.World). m.get_retries b.0 b.1 b.2) (all_managed env ms)
          (same_retries env a b ms))
