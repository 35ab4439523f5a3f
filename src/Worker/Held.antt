-- ===== src/Worker/Held.antt =====
-- A message stays in the queue in progress until its job is over (fetcher.go, task_runner.go,
-- worker.go, middleware_retry.go).
use go_workers.Prelude.{
  ◌≡◌, ◌≢◌, sym, ap, ◌∙◌, String, true, false, none, some, List, [], ◌∷◌, inl, inr, ◌⊎◌, arith,
  Option-cases, eq_refl,
}
use go_workers.Prelude.Int.{ltb_ℤ}
use go_workers.Effect.{Error, text, no_message, Outcome, ok, err}
use go_workers.External.Platform.{Platform}
use go_workers.External.Keyspace.{split_last, contains}
use go_workers.Storage.Laws.{StoreLaws}
use go_workers.Storage.Spec.{Jobs, take_oldest}
use go_workers.Storage.Moved.{pop_none, pop_some}
use go_workers.Msg.{Msg, new_msg, new_data}
use go_workers.Job.{Env, Frame, JobFunc, RetriesExhaustedFunc}
use go_workers.Middleware.Retry.{
  retry, retry_count, retry_max, retry_process_error, retry_middleware,
}
use go_workers.Middleware.Retry.Stored.{Asked, ack_unless_refused}
use go_workers.Worker.{
  SimpleFetcher, in_progress_queue, send_message, try_fetch_message, acknowledge, begin,
  process_message, run_message,
}

module _ {p : Platform} (env : Env p) (handlers : List (RetriesExhaustedFunc env)) (queue : String)
    (next : JobFunc env) (fetcher : SimpleFetcher) (message : Msg p) (w : env.World) where
  abbrev pub ran : Outcome (Unit {0}) × env.World
  ran = run_message env (retry_middleware env handlers queue next) fetcher message w

  module _ (e : Error) (f : Frame env) (fails : next (begin env message w) ≡ (err e, f)) where
    abbrev pub after : Outcome (Unit {0}) × Frame env
    after = retry_process_error env handlers queue e f

    ran_ok :
        after.0 ≡ ok tt
        → after.1.message.ack ≡ true
        → ran ≡ acknowledge env fetcher after.1.message after.1.world
    unfolding run_message retry_middleware process_message
    ran_ok o a = ground arith

    ran_err :
        (x : Error)
        → after.0 ≡ err x
        → after.1.message.ack ≡ false
        → ran ≡ (ok tt, env.println ("ERR:" ∷ text x ∷ []) after.1.world)
    unfolding run_message retry_middleware process_message
    ran_err x o a = ground arith

    -- The store has taken the message that is left and it is acknowledged, or the store has
    -- refused it, and its error is logged and that is all.
    abbrev pub Kept : Type 0
    Kept =
        (Asked env (ok tt) after.1 × (ran ≡ acknowledge env fetcher after.1.message after.1.world))
        ⊎ ((x : Error) × Asked env (err x) after.1
            × (ran ≡ (ok tt, env.println ("ERR:" ∷ text x ∷ []) after.1.world)))

    -- A failed job that may be retried is never acknowledged and lost: either the store has taken
    -- the message that is left for a retry, and then it is acknowledged, or the store has refused
    -- that message, and then the runner logs the store's error and no acknowledgement is sent. This
    -- is for a store that answers and a message that the job leaves to be acknowledged.
    pub stored_or_kept :
        ((t : p.Float) (m : String) (v : env.World)
          → ((env.store.enqueue_retried_message t m v).0 ≡ ok tt)
            ⊎ ((x : Error) × ((env.store.enqueue_retried_message t m v).0 ≡ err x)))
        → f.message.ack ≡ true
        → retry f.message ≡ true
        → ltb_ℤ (retry_count f.message) (retry_max f.message) ≡ true
        → Kept
    stored_or_kept answers a r k = elim (ack_unless_refused env handlers queue e f answers r k) [
      | inl (o, asked, kept) ↦ inl (asked, ran_ok o (kept ∙ a))
      | inr (x, o, asked, lost) ↦ inr (x, asked, ran_err x o lost)
    ]

module _ {p : Platform} (env : Env p) (fetcher : SimpleFetcher) (w : env.World) where
  abbrev pub deq : Outcome String × env.World
  deq = env.store.dequeue_message fetcher.queue (in_progress_queue fetcher) 1 w

  pub fetch_value :
      (raw : String) → deq.0 ≡ ok raw → try_fetch_message env fetcher w ≡ send_message env raw deq.1
  unfolding try_fetch_message
  fetch_value raw o = ground arith

  pub fetch_failed : (e : Error) → deq.0 ≡ err e → (try_fetch_message env fetcher w).0 ≡ ok none
  unfolding try_fetch_message
  fetch_failed Error.redis_nil o = ground arith
  fetch_failed no_message o = ground arith
  fetch_failed (Error.error s) o = ground arith

  pub send_some :
      (raw : String) (v : env.World) (m : Msg p)
      → (send_message env raw v).0 ≡ ok (some m)
      → (m.original ≡ raw) × ((send_message env raw v).1 ≡ v)
  unfolding send_message new_msg new_data
  send_some raw v m o = ground arith

  module _ (jobs : env.World → Jobs p.Float) (laws : StoreLaws p.ltf env.store jobs) where
    taken :
        (r : String) (j : Jobs p.Float) (raw : String)
        → (take_oldest fetcher.queue r j).0 ≡ ok raw
        → contains raw ((take_oldest fetcher.queue r j).1.queues r) ≡ true
    taken r j raw o = elim (Option-cases (split_last (j.queues fetcher.queue))) [
      | inl e ↦ ground arith
      | inr ((rest, m), e) ↦ ground (arith, eq_refl r, eq_refl m)
    ]

    not_failed :
        (m : Msg p) (e : Error) → deq.0 ≡ err e → (try_fetch_message env fetcher w).0 ≢ ok (some m)
    not_failed m e q o = cc (sym (fetch_failed e q) ∙ o)

    abbrev r : String
    r = in_progress_queue fetcher

    -- With a store that keeps its contract, the text of a message that the fetcher hands to a
    -- runner is in the queue in progress.
    pub fetched_in_progress :
        (m : Msg p)
        → (try_fetch_message env fetcher w).0 ≡ ok (some m)
        → contains m.original
            ((jobs (try_fetch_message env fetcher w).1).queues (in_progress_queue fetcher))
          ≡ true
    fetched_in_progress m o = elim (laws.dequeue fetcher.queue r 1 w) [
      | inr (e, q, _, _) ↦ absurd (not_failed m e q o)
      | inl (q, v) ↦ elim (Option-cases (split_last ((jobs w).queues fetcher.queue))) [
        | inl n ↦ absurd (
            not_failed m no_message
              (q ∙ ap (λ z. z.0) (pop_none fetcher.queue r (jobs w) no_message n)) o)
        | inr ((rest, raw), n) ↦
            let got = ap (λ z. z.0) (pop_some fetcher.queue r (jobs w) no_message n) in
            let sent = fetch_value raw (q ∙ got) in
            let same = send_some raw deq.1 m (sym (ap (λ z. z.0) sent) ∙ o) in
            rw (sent, same.0, same.1, v) (taken r (jobs w) raw got)
      ]
    ]
