-- ===== src/DispatchEvent/Malformed.antt =====
-- What becomes of a job whose arguments cannot be read (dispatch-event/main.go).
use go_workers.Prelude.{
  ◌≡◌, refl, ap, sym, ◌∙◌, String, ◌<>◌, true, false, some, List, [], ◌∷◌, arith, inl, inr, ◌⊎◌,
  subst,
}
use go_workers.Prelude.Int.{ltb_ℤ}
use go_workers.Effect.{Error, text, Outcome, ok, err}
use go_workers.External.Platform.{Platform}
use go_workers.Msg.{Msg, jid, args, json_text, to_json}
use go_workers.Job.{Env, Frame, JobFunc, RetriesExhaustedFunc}
use go_workers.Middleware.Chain.{build}
use go_workers.Middleware.Logging.{log_args, log_process_error, log_middleware}
use go_workers.Middleware.Retry.{
  retry, retry_count, retry_max, retry_process_error, retry_middleware,
}
use go_workers.Middleware.Retry.Stored.{ack_unless_refused}
use go_workers.Middleware.Stats.{stats_middleware}
use go_workers.Middleware.Stats.Once.{counting, counted_end, counts_once}
use go_workers.DispatchEvent.{
  Surrounding, malformed, event_logging, event_middlewares, event_dispatcher_processor, parsed,
}

module _ {p : Platform} (env : Env p) where
  -- The store has been asked to take this message for a retry, and this is its answer.
  abbrev pub Offered : Outcome (Unit {0}) → Msg p → Type 0
  Offered o m =
      (t : p.Float) × (w v : env.World) × (env.store.enqueue_retried_message t (to_json m) w
        ≡ (o, v))

  -- The store has taken a failed job for a retry and it is to be acknowledged, or the store has
  -- refused it, and it ends with the store's error and is not to be acknowledged.
  abbrev pub Settled : Outcome (Unit {0}) × Frame env → Type 0
  Settled s =
      ((s.0 ≡ ok tt) × (s.1.message.ack ≡ true) × Offered (ok tt) s.1.message)
      ⊎ ((y : Error) × (s.0 ≡ err y) × (s.1.message.ack ≡ false) × Offered (err y) s.1.message)

  -- What a middleware does that only logs
  Settled-same :
      (r s : Outcome (Unit {0}) × Frame env)
      → ((r.0 ≡ ok tt) → (s.0 ≡ ok tt) × (s.1.message ≡ r.1.message))
      → ((y : Error) → (r.0 ≡ err y) → (s.0 ≡ err y) × (s.1.message ≡ r.1.message))
      → Settled r
      → Settled s
  Settled-same r s good bad (inl (o, a, m)) =
      let q = good o in
      inl (q.0, ap (λ (x : Msg p). x.ack) q.1 ∙ a, subst (Offered (ok tt)) (sym q.1) m)
  Settled-same r s good bad (inr (y, o, a, m)) =
      let q = bad y o in
      inr (y, q.0, ap (λ (x : Msg p). x.ack) q.1 ∙ a, subst (Offered (err y)) (sym q.1) m)

  -- A failed job keeps its error and its message under the statistics, with a store that answers.
  stats-err :
      (queue : String) (next : JobFunc env) (f g : Frame env) (e : Error)
      → ((metric : String) (w : env.World)
          → ((env.store.increment_stats metric w).0 ≡ ok tt)
            ⊎ ((x : Error) × ((env.store.increment_stats metric w).0 ≡ err x)))
      → next f ≡ (err e, g)
      → (h : Frame env) × (stats_middleware env queue next f ≡ (err e, h)) × (h.message ≡ g.message)
  stats-err queue next f g e answers q = (
    counting env queue next answers f "failed",
    counts_once env queue next answers f ∙ ap (λ r. counted_end env queue next answers f r.0) q,
    ap (λ r. r.1.message) q,
  )

  retry-ok :
      (handlers : List (RetriesExhaustedFunc env)) (queue : String) (next : JobFunc env)
      (f g : Frame env) (e : Error)
      → next f ≡ (err e, g)
      → (retry_process_error env handlers queue e g).0 ≡ ok tt
      → retry_middleware env handlers queue next f ≡ retry_process_error env handlers queue e g
  unfolding retry_middleware
  retry-ok handlers queue next f g e q o = ground arith

  retry-err :
      (handlers : List (RetriesExhaustedFunc env)) (queue : String) (next : JobFunc env)
      (f g : Frame env) (e x : Error)
      → next f ≡ (err e, g)
      → (retry_process_error env handlers queue e g).0 ≡ err x
      → retry_middleware env handlers queue next f ≡ retry_process_error env handlers queue e g
  unfolding retry_middleware
  retry-err handlers queue next f g e x q o = ground arith

  log-Settled :
      (queue : String) (next : JobFunc env) (f : Frame env) (json : p.Json)
      → args f.message ≡ some json
      → ((w : env.World) → Settled (next (record f { world = w })))
      → Settled (log_middleware env queue next f)
  unfolding log_middleware log_process_error log_args
  log-Settled queue next f json a k =
      let prefix = queue <> (" JID-" <> jid f.message) in
      let w =
        env.println (prefix ∷ "args:" ∷ json_text p json ∷ [])
          (env.println (prefix ∷ "start" ∷ []) f.world) in
      Settled-same (next (record f { world = w })) (log_middleware env queue next f)
        (λ o. (ground (arith, a), ground (arith, a)))
        (λ y o. (ground (arith, a), ground (arith, a))) (k w)

  module _ (around : Surrounding env) where
    event_logging-Settled :
        (next : JobFunc env) (f : Frame env)
        → ((w : env.World) → Settled (next (record f { world = w })))
        → Settled (event_logging env around next f)
    unfolding event_logging
    event_logging-Settled next f k =
        let w = around.printf ("Starting EventDispatcherJob processing" ∷ []) f.world in
        Settled-same (next (record f { world = w })) (event_logging env around next f)
          (λ o. (ground arith, ground arith)) (λ y o. (ground arith, ground arith)) (k w)

    processor-fails :
        (f : Frame env) (json : p.Json) (x : Error)
        → args f.message ≡ some json
        → around.unmarshal (json_text p json) ≡ err x
        → event_dispatcher_processor env around f ≡ (
          err (malformed env around x),
          record f { world = around.printf ("Error parsing job arguments:" ∷ text x ∷ []) f.world },
        )
    unfolding event_dispatcher_processor parsed
    processor-fails f json x a u = rw (a, event_dispatcher_processor) (rw (u, parsed) refl)

    module _ (handlers : List (RetriesExhaustedFunc env)) (queue : String)
        (counts : (metric : String) (w : env.World)
          → ((env.store.increment_stats metric w).0 ≡ ok tt)
            ⊎ ((x : Error) × ((env.store.increment_stats metric w).0 ≡ err x)))
        (answers : (t : p.Float) (m : String) (w : env.World)
          → ((env.store.enqueue_retried_message t m w).0 ≡ ok tt)
            ⊎ ((x : Error) × ((env.store.enqueue_retried_message t m w).0 ≡ err x))) where
      -- A failed job that may be retried, under the middlewares for retries and statistics
      retry-Settled :
          (next : JobFunc env) (f g : Frame env) (e : Error)
          → next f ≡ (err e, g)
          → g.message.ack ≡ true
          → retry g.message ≡ true
          → ltb_ℤ (retry_count g.message) (retry_max g.message) ≡ true
          → Settled (retry_middleware env handlers queue next f)
      retry-Settled next f g e q a r k =
          elim (ack_unless_refused env handlers queue e g answers r k) [
            | inl (o, (t, w, asked), kept) ↦
                subst Settled (sym (retry-ok handlers queue next f g e q o))
                  (inl (o, kept ∙ a, (t, w, _, asked)))
            | inr (y, o, (t, w, asked), lost) ↦
                subst Settled (sym (retry-err handlers queue next f g e y q o))
                  (inr (y, o, lost, (t, w, _, asked)))
          ]

      -- A job whose arguments are no JobArgs, and that may be retried, is not dropped by this
      -- program: the store has taken it for a retry and it is to be acknowledged, or the store has
      -- refused it, and it ends with the store's error and is not to be acknowledged. For a store
      -- that answers, and a message that has its arguments and is to be acknowledged.
      pub malformed_retried :
          (f : Frame env) (json : p.Json) (x : Error)
          → args f.message ≡ some json
          → around.unmarshal (json_text p json) ≡ err x
          → f.message.ack ≡ true
          → retry f.message ≡ true
          → ltb_ℤ (retry_count f.message) (retry_max f.message) ≡ true
          → Settled (
              build env
                (event_middlewares env around)
                queue
                handlers
                (event_dispatcher_processor env around)
                f)
      unfolding build
      malformed_retried f json x a u ack r k = event_logging-Settled _ f λ w.
          log-Settled queue _ (record f { world = w }) json a
            λ v.
              let g = record f { world = v } in
              let failed = processor-fails g json x a u in
              let counted =
                stats-err queue (event_dispatcher_processor env around) g
                  (record g {
                    world = around.printf ("Error parsing job arguments:" ∷ text x ∷ []) v;
                  })
                  (malformed env around x) counts failed in
              retry-Settled (stats_middleware env queue (event_dispatcher_processor env around)) g
                counted.0 (malformed env around x) counted.1
                (ap (λ (m : Msg p). m.ack) counted.2 ∙ ack) (ap retry counted.2 ∙ r)
                (ap (λ m. ltb_ℤ (retry_count m) (retry_max m)) counted.2 ∙ k)
