-- ===== src/Middleware/Retry/Limit.antt =====
-- How often a job is retried (retryProcessError and incrementRetry of middleware_retry.go).
use go_workers.Prelude.{
  ℕ, zero, suc, ◌^◌, ◌≤◌, ◌<◌, ◌≡◌, refl, ap, ◌∙◌, String, Bool, true, false, none, some, List, [],
  ◌∷◌, All, leb, arith,
}
use go_workers.Prelude.Int.{ℤ, pos, ◌+ℤ◌, ltb_ℤ, wrap64_pos}
use go_workers.Effect.{Error, ok, err}
use go_workers.External.Platform.{Platform, Lawful}
use go_workers.Msg.{Msg}
use go_workers.Job.{Env, Frame, RetriesExhaustedFunc}
use go_workers.Middleware.Retry.{
  retry, retry_count, retry_max, next_count, count_after, run_handlers, retry_process_error,
}
use go_workers.Middleware.Retry.Fields.{retry_fields}
use go_workers.Middleware.Retry.Stored.{
  Asked, schedule_retry-Asked, process, process_scheduled, exhausted, process-exhausted,
}

leb-true : (n m : ℕ) → n ≤ m → leb n m ≡ true
leb-true n m h = ground arith

plus_one : (k : ℕ) → pos k +ℤ pos 1 ≡ pos (suc k)
unfolding ◌+ℤ◌
plus_one k = ground arith

module _ (p : Platform) where
  -- The count that a message carries after `n` failures: none before the first.
  abbrev pub Counts : ℕ → p.Json → Type 0
  Counts zero j = (e : Error) × (p.as_int j ≡ (pos 0, some e))
  Counts (suc k) j = p.as_int j ≡ (pos k, none)

  -- A job that may be retried, with a limit, after `n` failures.
  pub record Failed (m n : ℕ) (j : p.Json) : Type 0 where
    pub object : p.is_object j ≡ true
    pub retried : p.as_bool (p.get j "retry") ≡ (true, none)
    pub limit : p.as_int (p.get j "retry_max") ≡ (pos m, none)
    pub counts : Counts n (p.get j "retry_count")

  counted_once : (n : ℕ) (j : p.Json) → n < 2 ^ 63 → Counts n j → (count_after p j).0 ≡ pos n
  unfolding count_after
  counted_once zero j h (e, c) = rw (c, count_after)
  counted_once (suc k) j h c =
      rw (c, count_after, c, plus_one k) (wrap64_pos (suc k) (omega (arith, h)))

  below : (n : ℕ) (m : ℕ) (j : p.Json) → 1 ≤ m → Counts n j → ltb_ℤ (p.as_int j).0 (pos m) ≡ leb n m
  below zero m j h (e, c) = rw c (ground arith)
  below (suc k) m j h c = rw c (ground arith)

module _ {p : Platform} {m n : ℕ} (msg : Msg p) (some_retries : 1 ≤ m)
    (f : Failed p m n msg.json) where
  is_retried : retry msg ≡ true
  unfolding retry
  is_retried = ground (arith, f.retried)

  max_is : retry_max msg ≡ pos m
  unfolding retry_max
  max_is = ground (arith, f.limit)

  is_below : ltb_ℤ (retry_count msg) (retry_max msg) ≡ leb n m
  unfolding retry_count
  is_below = rw max_is (below p n m (p.get msg.json "retry_count") some_retries f.counts)

  next_is : n < 2 ^ 63 → (next_count msg).0 ≡ pos n
  unfolding next_count
  next_is h = counted_once p n (p.get msg.json "retry_count") h f.counts

module _ {p : Platform} (l : Lawful p) (env : Env p) (handlers : List (RetriesExhaustedFunc env))
    (queue : String) (e : Error) (m : ℕ) (some_retries : 1 ≤ m) (bounded : m < 2 ^ 63) where
  -- What the handlers for jobs whose retries are exhausted leave, one after the other
  abbrev pub told : List (RetriesExhaustedFunc env) → Frame env → Frame env
  told [] f = f
  told (h ∷ hs) f = told hs (h queue e f).1

  -- A failure below the limit asks the store to take the message that it leaves, and ends as the
  -- store answers; one above it tells the handlers and ends with the error of the job.
  abbrev pub Limited : Bool → Frame env → Type 0
  Limited true f =
      Asked env (retry_process_error env handlers queue e f).0
        (retry_process_error env handlers queue e f).1
  Limited false f = retry_process_error env handlers queue e f ≡ (err e, told handlers f)

  run_handlers_lem :
      (hs : List (RetriesExhaustedFunc env)) (f : Frame env)
      → All (λ (h : RetriesExhaustedFunc env). (g : Frame env) → (h queue e g).0 ≡ none) hs
      → run_handlers env hs queue e f ≡ (ok tt, told hs f)
  unfolding run_handlers
  run_handlers_lem [] f a = refl
  run_handlers_lem (h ∷ hs) f a = rw (a.0 f) (run_handlers_lem hs (h queue e f).1 a.1)

  by_limit :
      (f : Frame env) (b : Bool)
      → All (λ (h : RetriesExhaustedFunc env). (g : Frame env) → (h queue e g).0 ≡ none) handlers
      → retry f.message ≡ true
      → ltb_ℤ (retry_count f.message) (retry_max f.message) ≡ b
      → Limited b f
  unfolding exhausted process
  by_limit f true a r k =
      rw (process_scheduled env handlers queue e f r k) (schedule_retry-Asked env queue e f)
  by_limit f false a r k =
      process-exhausted env handlers queue e f r k ∙ rw (run_handlers_lem handlers f a) refl

  -- The frame after the job has failed once more.
  abbrev pub fail_again : Frame env → Frame env
  fail_again f = (retry_process_error env handlers queue e f).1

  fails_again :
      (n : ℕ) (f : Frame env)
      → n ≤ m
      → Failed p m n f.message.json
      → Failed p m (suc n) (fail_again f).message.json
  fails_again n f h g =
      let r =
        retry_fields l env queue e f g.object handlers (is_retried f.message some_retries g)
          (is_below f.message some_retries g ∙ leb-true n m h) in
      record {
        object = r.0;
        retried = ap p.as_bool (r.4 "retry" refl) ∙ g.retried;
        limit = ap p.as_int (r.4 "retry_max" refl) ∙ g.limit;
        counts =
            r.3
            ∙ ap (λ (c : ℤ). (c, none))
                (next_is f.message some_retries g (omega (arith, h, bounded)));
      }

  -- The frame after `n` failures.
  abbrev pub failed_times : ℕ → Frame env → Frame env
  failed_times zero f = f
  failed_times (suc n) f = fail_again (failed_times n f)

  fails_on :
      (n : ℕ) (f : Frame env)
      → n ≤ suc m
      → Failed p m 0 f.message.json
      → Failed p m n (failed_times n f).message.json
  fails_on zero f h g = g
  fails_on (suc n) f h g =
      fails_again n (failed_times n f) (omega (arith, h)) (fails_on n f (omega (arith, h)) g)

  -- A job with a limit m, at least 1 and below 2 ^ 63, that may be retried and carries no count,
  -- and that fails again and again: each of the first m + 1 of its failures, one more than its
  -- limit, asks the store to take the message that is left for a retry and ends as the store
  -- answers; the next failure tells the handlers for exhausted retries, one after the other, and
  -- ends with the error of the job. For handlers that do not panic.
  pub one_retry_more :
      (n : ℕ) (f : Frame env)
      → All (λ (h : RetriesExhaustedFunc env). (g : Frame env) → (h queue e g).0 ≡ none) handlers
      → n ≤ suc m
      → Failed p m 0 f.message.json
      → Limited (leb n m) (failed_times n f)
  one_retry_more n f a h g =
      let after = failed_times n f in
      let k = fails_on n f h g in
      by_limit after (leb n m) a (is_retried after.message some_retries k)
        (is_below after.message some_retries k)
