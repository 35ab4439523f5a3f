-- ===== src/Recovery.antt =====
-- A process that dies with messages in progress (worker.go, fetcher.go), and the manager that finds
-- its heartbeat expired (manager.go, storage/redis.go).
use go_workers.Prelude.{
  ℕ, ◌+◌, ◌≤◌, ◌<◌, ◌≡◌, refl, sym, ap, ◌∙◌, String, Bool, none, some, Option, List, [], ◌∷◌, ◌++◌,
  All, length, arith, eq_refl, subst,
}
use go_workers.Prelude.Int.{ℤ}
use go_workers.Effect.{Error, Outcome, ok, Io, pure, fail}
use go_workers.Effect.Inverse.{first_ok}
use go_workers.External.Platform.{Platform}
use go_workers.External.Redis.{Documented}
use go_workers.Storage.Types.{Store, WorkerHeartbeat}
use go_workers.Storage.Client.{RedisStore}
use go_workers.Storage.Instance.{redis_store, redis_store-StoreLaws}
use go_workers.Storage.Moved.{Moved}
use go_workers.Storage.Refinement.{jobs}
use go_workers.Storage.Requeue.{requeue_messages_from_in_progress_queue_lem}
use go_workers.Storage.RedisStore.Queues.{requeue_messages_from_in_progress_queue}
use go_workers.Storage.Spec.{Jobs}
use go_workers.Job.{Env, JobFunc}
use go_workers.Worker.{SimpleFetcher, in_progress_queue}
use go_workers.Worker.Effects.{queue-ne-in_progress}
use go_workers.Worker.System.{Runner, System, Reach, begun}
use go_workers.Worker.System.Bounds.{Surroundings}
use go_workers.Worker.System.Counts.{count, held}
use go_workers.Worker.System.Inactive.{Resting}
use go_workers.Worker.System.Kept.{never_lost}
use go_workers.Manager.Expired.{StaleMessageUpdate, add_update, requeue, expire_workers}
use go_workers.Manager.Expired.Once.{distinct, requeue_each, workers_once}

-- The heartbeat of a runner of the worker with this fetcher
abbrev pub OfWorker : SimpleFetcher → WorkerHeartbeat → Type 0
OfWorker f h = (h.queue ≡ f.queue) × (h.in_progress_queue ≡ in_progress_queue f)

count-append : (x : String) (ys zs : List String) → count x (ys ++ zs) ≡ count x ys + count x zs
count-append x [] zs = omega arith
count-append x (y ∷ ys) zs = omega (arith, count-append x ys zs)

-- The other runners of a worker have the same queue in progress.
distinct-OfWorker :
    (f : SimpleFetcher) (hs : List WorkerHeartbeat)
    → All (OfWorker f) hs
    → distinct hs (in_progress_queue f ∷ []) ≡ []
distinct-OfWorker f [] a = refl
distinct-OfWorker f (h ∷ hs) a =
    rw (a.0.1, eq_refl (in_progress_queue f)) (distinct-OfWorker f hs a.1)

-- All messages of a queue have moved to another.
Moved-all :
    {Score : Type 0} {from to : String} {j k : Jobs Score}
    → Moved from to j k
    → k.queues from ≡ []
    → (x : String) → count x (j.queues from) ≤ count x (k.queues to)
Moved-all {from = from} {to = to} {j = j} {k = k} m e x = omega (
  arith,
  ap (count x) m.before,
  count-append x m.kept m.gone,
  ap (count x) (sym m.after ∙ e),
  ap (count x) m.arrived,
  count-append x m.gone (j.queues to),
)

ok_inj : {A : Type 0} {x y : A} → ◌≡◌ {A = Outcome A} (ok x) (ok y) → x ≡ y
ok_inj e = cc e

abbrev reports : {W : Type 0} → List String × Option Error → Io W (List String)
reports r = elim r.1 [ none ↦ pure r.0 | some x ↦ fail x ]

-- What a requeue that is passed on without an error has seen
requeue_calls :
    {Score W : Type 0} (store : Store Score W) (h : WorkerHeartbeat) (w v : W) (ms : List String)
    → requeue store h w ≡ (ok ms, v)
    → store.requeue_messages_from_in_progress_queue h.in_progress_queue h.queue w
      ≡ (ok (ms, none), v)
unfolding requeue
requeue_calls {W = W} store h w v ms e =
    let a =
      first_ok (store.requeue_messages_from_in_progress_queue h.in_progress_queue h.queue) reports w
        v ms e in
    a.2 ∙ reported a.0 a.1 a.3
  where
    reported :
        (r : List String × Option Error) (u : W)
        → reports r u ≡ (ok ms, v)
        → ◌≡◌ {A = Outcome (List String × Option Error) × W} (ok r, u) (ok (ms, none), v)
    reported (r, none) u q = cc q
    reported (r, some x) u q = cc q

module _ {p : Platform} (s : RedisStore p) (d : Documented s.client) where
  -- One queue in progress that is requeued without an error is empty then.
  requeue-count :
      (f : SimpleFetcher) (h : WorkerHeartbeat) (w v : s.client.Db) (ms : List String) (x : String)
      → OfWorker f h
      → length ((jobs s d w).queues (in_progress_queue f)) < s.fuel
      → requeue (redis_store s) h w ≡ (ok ms, v)
      → count x ((jobs s d w).queues (in_progress_queue f)) ≤ count x ((jobs s d v).queues f.queue)
  requeue-count f h w v ms x of fuel e =
      let call = requeue_messages_from_in_progress_queue s (in_progress_queue f) f.queue w in
      let given : requeue_messages_from_in_progress_queue s h.in_progress_queue h.queue w
          ≡ (ok (ms, none), v) =
        requeue_calls (redis_store s) h w v ms e in
      let calls : call ≡ (ok (ms, none), v) = rw (of.0, of.1) at given in
      let ends =
        requeue_messages_from_in_progress_queue_lem s d (in_progress_queue f) f.queue
          (λ q. queue-ne-in_progress f (sym q)) w fuel in
      let silent : ends.0.1 ≡ none = ap (λ r. r.1) (ok_inj (sym ends.1 ∙ ap (λ r. r.0) calls)) in
      subst
        (λ z.
          count x ((jobs s d w).queues (in_progress_queue f))
          ≤ count x ((jobs s d z).queues f.queue))
        (ap (λ r. r.1) calls) (Moved-all ends.2.moved (ends.2.emptied silent).0 x)

  -- The workers of one fetcher, requeued without an error
  expire_workers-one :
      (f : SimpleFetcher) (h : WorkerHeartbeat) (hs : List WorkerHeartbeat) (w v : s.client.Db)
      (updates : List StaleMessageUpdate)
      → All (OfWorker f) (h ∷ hs)
      → expire_workers (redis_store s) (h ∷ hs) [] w ≡ (ok updates, v)
      → (ms : List String) × (requeue (redis_store s) h w ≡ (ok ms, v))
  expire_workers-one f h hs w v updates a e =
      let alone : distinct (h ∷ hs) [] ≡ h ∷ [] =
        ap (λ q. h ∷ distinct hs (q ∷ [])) a.0.1 ∙ ap (λ ks. h ∷ ks) (distinct-OfWorker f hs a.1) in
      let path : expire_workers (redis_store s) (h ∷ hs) [] w
          ≡ requeue_each (redis_store s) (h ∷ []) w =
        ap (λ k. k w) (workers_once (redis_store s) (h ∷ hs) [])
        ∙ ap (λ ks. requeue_each (redis_store s) ks w) alone in
      let one =
        first_ok (requeue (redis_store s) h) (λ ms. pure (add_update h ms [])) w v updates
          (sym path ∙ e) in
      (one.0, one.2 ∙ ap (λ r. (ok one.0, r.1)) one.3)

  -- The surroundings of a process whose store is this one
  module _ (now : s.client.Db → ℤ × s.client.Db) (intn : ℕ → s.client.Db → ℕ × s.client.Db)
      (println : List String → s.client.Db → s.client.Db) where
    abbrev pub process : Env p
    process = record {
      World = s.client.Db;
      store = redis_store s;
      now = now;
      intn = intn;
      println = println;
    }

    -- A worker can die in any state that it reaches, with whatever it holds. When a manager then
    -- requeues the queues in progress of its runners without an error, each text that the worker
    -- held is in its queue, at least as often. This is for a documented Redis, with more rounds for
    -- the loop than there are messages in progress, a clock and a log that leave the jobs alone, and
    -- jobs that leave the queue in progress and the text of their message alone.
    pub dead_worker_recovered :
        (handler : JobFunc process) (f : SimpleFetcher)
        → Surroundings process handler f (jobs s d)
        → {c : System process} (runners : List (Runner p)) (active : Bool) (w : s.client.Db)
        → All Resting runners
        → Reach process handler f (begun process handler f runners active w) c
        → length ((jobs s d c.world).queues (in_progress_queue f)) < s.fuel
        → (h : WorkerHeartbeat) (hs : List WorkerHeartbeat) (v : s.client.Db)
          (updates : List StaleMessageUpdate)
        → All (OfWorker f) (h ∷ hs)
        → expire_workers (redis_store s) (h ∷ hs) [] c.world ≡ (ok updates, v)
        → (x : String) → held x c ≤ count x ((jobs s d v).queues f.queue)
    dead_worker_recovered handler f around {c} runners active w rest reach fuel h hs v updates of e
          x =
        let one = expire_workers-one f h hs c.world v updates of e in
        omega (
          arith,
          never_lost process handler f (jobs s d) (redis_store-StoreLaws s d).0 around runners
              active w rest reach x,
          requeue-count f h c.world v one.0 x of.0 fuel one.1,
        )
