-- ===== src/Storage/Refinement.antt =====
-- The store on Redis does what Spec.antt promises of the jobs, or reports an error.
use go_workers.Prelude.{
  ℕ, String, ◌<>◌, ◌≡◌, ◌≢◌, refl, fun_ext, inl, inr, List, ◌∷◌, arith, Option-cases, eq_refl,
  Bool-cases,
}
use go_workers.Effect.{Error, redis_nil, no_message, Outcome, err, Acts, Acts-map, Acts-rename}
use go_workers.External.Platform.{Platform}
use go_workers.External.Redis.{Documented}
use go_workers.External.Keyspace.{
  at, push, move, drop_last, add_member, set_add, contains, split_last, remove_last,
}
use go_workers.Storage.Types.{retry_key, scheduled_jobs_key}
use go_workers.Storage.Keys.{
  get_queue_name, str_eq-get_queue_name, retry_key-ne-scheduled, scheduled-ne-retry_key,
}
use go_workers.Storage.Client.{RedisStore}
use go_workers.Storage.Spec.{
  Jobs, jobs_of, now, take_oldest, pop_oldest, acknowledged, listed, created, scheduled_at,
  retried_at,
}
use go_workers.Storage.RedisStore.Queues.{
  dequeue_message, enqueue_message_now, acknowledge_message, create_queue, list_messages,
}
use go_workers.Storage.RedisStore.Sorted.{enqueue_scheduled_message, enqueue_retried_message}

-- A write under the key of one queue, read under the keys of all.
at-get_queue_name :
    {A : Type 0} (ns : String) (f : String → A) (k : String) (x : A)
    → ◌≡◌ {A = String → A}
        (λ q. at f (get_queue_name ns k) x (get_queue_name ns q))
        (at (λ q. f (get_queue_name ns q)) k x)
at-get_queue_name ns f k x = fun_ext λ q. rw (str_eq-get_queue_name ns k q)

-- The same of a write under one key followed by a write in front of the list under another.
move-get_queue_name :
    (ns : String) (f : String → List String) (k r : String) (rest : List String) (m : String)
    → ◌≡◌ {A = String → List String}
        (λ q.
          at
            (at f (get_queue_name ns k) rest)
            (get_queue_name ns r)
            (m ∷ at f (get_queue_name ns k) rest (get_queue_name ns r))
            (get_queue_name ns q))
        (at
          (at (λ q. f (get_queue_name ns q)) k rest)
          r
          (m ∷ at (λ q. f (get_queue_name ns q)) k rest r))
move-get_queue_name ns f k r rest m = fun_ext λ q. simp str_eq-get_queue_name

-- A blocking pop that finds nothing is storage.NoMessage to the callers.
abbrev empty_is_no_message : Outcome String → Outcome String
empty_is_no_message (err redis_nil) = err no_message
empty_is_no_message o = o

not_nil : (e : Error) → e ≢ redis_nil → empty_is_no_message (err e) ≡ err e
not_nil redis_nil h = absurd (h refl)
not_nil e h = refl

module _ {p : Platform} (s : RedisStore p) (d : Documented s.client) where
  abbrev pub jobs : s.client.Db → Jobs p.Float
  jobs w = jobs_of s.namespace (d.view w)

  pub enqueue_message_now-Acts : (q m : String) → Acts jobs (now q m) (enqueue_message_now s q m)
  unfolding enqueue_message_now get_queue_name
  enqueue_message_now-Acts q m =
      Acts-map d.view (jobs_of s.namespace) (λ _. tt) (push (get_queue_name s.namespace q) m)
        (now q m)
        (λ v.
          rw (at-get_queue_name s.namespace v.lists q (m ∷ v.lists (get_queue_name s.namespace q))))
        (d.lpush_doc (get_queue_name s.namespace q) m)

  pub list_messages-Acts : (q : String) → Acts jobs (listed q) (list_messages s q)
  unfolding list_messages
  list_messages-Acts q w = ground (arith, d.lrange_doc (get_queue_name s.namespace q) w)

  pub enqueue_scheduled_message-Acts :
      (t : p.Float) (m : String)
      → Acts jobs (scheduled_at p.ltf t m) (enqueue_scheduled_message s t m)
  unfolding enqueue_scheduled_message
  enqueue_scheduled_message-Acts t m =
      Acts-map d.view (jobs_of s.namespace) (λ _. tt)
        (add_member p.ltf (s.namespace <> scheduled_jobs_key) t m) (scheduled_at p.ltf t m)
        (λ v. rw (scheduled-ne-retry_key s.namespace, eq_refl (s.namespace <> scheduled_jobs_key)))
        (d.zadd_doc (s.namespace <> scheduled_jobs_key) t m)

  pub acknowledge_message-Acts :
      (q m : String) → Acts jobs (acknowledged q m) (acknowledge_message s q m)
  unfolding acknowledge_message
  acknowledge_message-Acts q m =
      Acts-map d.view (jobs_of s.namespace) (λ _. tt) (drop_last (get_queue_name s.namespace q) m)
        (acknowledged q m)
        (λ v. elim (Option-cases (remove_last m (v.lists (get_queue_name s.namespace q)))) [
          | inl e ↦ rw (e, acknowledged, drop_last)
          | inr (rest, e) ↦
              rw (e, acknowledged, drop_last) (rw (at-get_queue_name s.namespace v.lists q rest))
        ])
        (d.lrem_doc (get_queue_name s.namespace q) m)

  pub enqueue_retried_message-Acts :
      (t : p.Float) (m : String) → Acts jobs (retried_at p.ltf t m) (enqueue_retried_message s t m)
  unfolding enqueue_retried_message
  enqueue_retried_message-Acts t m =
      Acts-map d.view (jobs_of s.namespace) (λ _. tt)
        (add_member p.ltf (s.namespace <> retry_key) t m) (retried_at p.ltf t m)
        (λ v. rw (retry_key-ne-scheduled s.namespace, eq_refl (s.namespace <> retry_key)))
        (d.zadd_doc (s.namespace <> retry_key) t m)

  pub create_queue-Acts : (q : String) → Acts jobs (created q) (create_queue s q)
  unfolding create_queue
  create_queue-Acts q =
      Acts-map d.view (jobs_of s.namespace) (λ _. tt) (set_add (s.namespace <> "queues") q)
        (created q)
        (λ v. elim (Bool-cases (contains q (v.sets (s.namespace <> "queues")))) [
          | inl e ↦ rw (e, set_add)
          | inr e ↦ rw (e, set_add) (rw (eq_refl (s.namespace <> "queues")))
        ])
        (d.sadd_doc (s.namespace <> "queues") q)

  pub dequeue_message-Acts :
      (q r : String) (t : ℕ) → Acts jobs (take_oldest q r) (dequeue_message s q r t)
  unfolding dequeue_message
  dequeue_message-Acts q r t =
      let from = get_queue_name s.namespace q in
      let to = get_queue_name s.namespace r in
      Acts-rename d.view (jobs_of s.namespace) empty_is_no_message (move from to) (take_oldest q r)
        (λ w. ground arith) not_nil
        (λ v. elim (Option-cases (split_last (v.lists from))) [
          | inl e ↦ rw (e, pop_oldest, move)
          | inr ((rest, m), e) ↦
              rw (e, pop_oldest, move) (rw (move-get_queue_name s.namespace v.lists q r rest m))
        ])
        (d.brpoplpush_doc from to t)

  -- The same command, whose caller looks for redis.Nil itself.
  pub brpoplpush-Acts :
      (q r : String) (t : ℕ)
      → Acts jobs
          (pop_oldest redis_nil q r)
          (s.client.brpoplpush (get_queue_name s.namespace q) (get_queue_name s.namespace r) t)
  brpoplpush-Acts q r t =
      let from = get_queue_name s.namespace q in
      let to = get_queue_name s.namespace r in
      Acts-rename d.view (jobs_of s.namespace) (λ o. o) (move from to) (pop_oldest redis_nil q r)
        (λ w. refl) (λ e h. refl)
        (λ v. elim (Option-cases (split_last (v.lists from))) [
          | inl e ↦ rw (e, pop_oldest, move)
          | inr ((rest, m), e) ↦
              rw (e, pop_oldest, move) (rw (move-get_queue_name s.namespace v.lists q r rest m))
        ])
        (d.brpoplpush_doc from to t)
