-- ===== src/Storage/Listed.antt =====
-- Listing the messages that are to be retried, and the queues in order of priority
-- (GetAllRetries and EnqueueMessage of storage/redis.go).
use go_workers.Prelude.{
  String, ◌<>◌, ◌≡◌, ◌≢◌, ◌∙◌, refl, ap, eq_refl, some, inl, inr, ◌⊎◌, Bool, List, length, arith,
}
use go_workers.Prelude.Int.{pos, negsuc}
use go_workers.Effect.{Error, redis_nil, no_message, error, Outcome, ok, err, Acts, Acts-map}
use go_workers.External.Platform.{Platform}
use go_workers.External.Redis.{Documented, report_unless_nil}
use go_workers.External.Keyspace.{members, add_member}
use go_workers.Storage.Types.{retry_key}
use go_workers.Storage.Keys.{get_queue_name}
use go_workers.Storage.Client.{RedisStore}
use go_workers.Storage.Spec.{jobs_of, insert, retries_listed}
use go_workers.Storage.Refinement.{jobs}
use go_workers.Storage.RedisStore.Sorted.{get_all_retries, enqueue_message}

-- The sorted set under the key of a queue, with the lists and the sets of the database
pub record Prioritized (Score : Type 0) : Type 0 where
  pub waiting : List (Score × String)
  pub lists : String → List String
  pub sets : String → List String

abbrev pub put_in_order :
    {Score : Type 0} (lt : Score → Score → Bool)
    → Score
    → String
    → Prioritized Score
    → Outcome (Unit {0}) × Prioritized Score
put_in_order lt t m v = (ok tt, record v { waiting = insert lt t m v.waiting })

reported :
    {W : Type 0} (e : Error) (w : W) → e ≢ redis_nil → report_unless_nil (some e) w ≡ (err e, w)
reported redis_nil w h = absurd (h refl)
reported no_message w h = refl
reported (error t) w h = refl

module _ {p : Platform} (s : RedisStore p) (d : Documented s.client) where
  abbrev key : String
  key = s.namespace <> retry_key

  abbrev counted : s.client.Db → s.client.Db
  counted w = (s.client.zcard key w).1

  abbrev listed : s.client.Db → s.client.Db
  listed w = (s.client.zrange key (pos 0) (negsuc 0) (counted w)).1

  both :
      (w : s.client.Db)
      → (s.client.zcard key w).0 ≡ ok (length ((d.view w).zsets key))
      → (s.client.zrange key (pos 0) (negsuc 0) (counted w)).0
        ≡ ok (members ((d.view (counted w)).zsets key))
      → get_all_retries s w ≡ (
        ok (record {
          retry_jobs = members ((d.view (counted w)).zsets key);
          total_retry_count = pos (length ((d.view w).zsets key));
        }),
        listed w,
      )
  unfolding get_all_retries
  both w r q = ground (arith, r, q)

  not_counted :
      (w : s.client.Db) (e : Error)
      → e ≢ redis_nil
      → (s.client.zcard key w).0 ≡ err e
      → ((k : List String) × ((s.client.zrange key (pos 0) (negsuc 0) (counted w)).0 ≡ ok k))
        ⊎ ((x : Error) × ((s.client.zrange key (pos 0) (negsuc 0) (counted w)).0 ≡ err x))
      → get_all_retries s w ≡ (err e, listed w)
  unfolding get_all_retries
  not_counted w e n r (inl (k, q)) = ground (arith, r, q, reported e (listed w) n)
  not_counted w e n r (inr (x, q)) = ground (arith, r, q, reported e (listed w) n)

  not_listed :
      (w : s.client.Db) (e : Error)
      → e ≢ redis_nil
      → (s.client.zcard key w).0 ≡ ok (length ((d.view w).zsets key))
      → (s.client.zrange key (pos 0) (negsuc 0) (counted w)).0 ≡ err e
      → get_all_retries s w ≡ (err e, listed w)
  unfolding get_all_retries
  not_listed w e n r q = ground (arith, r, q, reported e (listed w) n)

  -- Neither command changes what Redis keeps.
  seen : (w : s.client.Db) → d.view (counted w) ≡ d.view w
  seen w = elim (d.zcard_doc key w) [
    | inl (r, v) ↦ v
    | inr (e, r, n, inl v) ↦ v
    | inr (e, r, n, inr v) ↦ v
  ]

  listed_seen : (w : s.client.Db) → d.view (listed w) ≡ d.view w
  listed_seen w = elim (d.zrange_doc key (counted w)) [
    | inl (r, v) ↦ v ∙ seen w
    | inr (e, r, n, inl v) ↦ v ∙ seen w
    | inr (e, r, n, inr v) ↦ v ∙ seen w
  ]

  pub get_all_retries-Acts : Acts (jobs s d) retries_listed (get_all_retries s)
  get_all_retries-Acts w =
      let same = ap (λ v. jobs_of s.namespace v) (listed_seen w) in
      elim (d.zcard_doc key w) [
        | inl (r, _) ↦ elim (d.zrange_doc key (counted w)) [
          | inl (q, _) ↦ rw (both w r q) (inl (rw (seen w) refl, same))
          | inr (e, q, n, _) ↦ rw (not_listed w e n r q) (inr (e, refl, n, inl same))
        ]
        | inr (e, r, n, _) ↦ elim (d.zrange_doc key (counted w)) [
          | inl (q, _) ↦ rw (not_counted w e n r (inl (_, q))) (inr (e, refl, n, inl same))
          | inr (x, q, _, _) ↦ rw (not_counted w e n r (inr (x, q))) (inr (e, refl, n, inl same))
        ]
      ]

  abbrev pub prioritized : String → s.client.Db → Prioritized p.Float
  prioritized q w = record {
    waiting = (d.view w).zsets (get_queue_name s.namespace q);
    lists = (d.view w).lists;
    sets = (d.view w).sets;
  }

  pub enqueue_message-Acts :
      (q : String) (t : p.Float) (m : String)
      → Acts (prioritized q) (put_in_order p.ltf t m) (enqueue_message s q t m)
  unfolding enqueue_message
  enqueue_message-Acts q t m =
      let k = get_queue_name s.namespace q in
      Acts-map d.view (λ v. record { waiting = v.zsets k; lists = v.lists; sets = v.sets })
        (λ _. tt) (add_member p.ltf k t m) (put_in_order p.ltf t m) (λ v. rw (eq_refl k) refl)
        (d.zadd_doc k t m)
