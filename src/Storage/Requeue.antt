-- ===== src/Storage/Requeue.antt =====
-- The loop of RequeueMessagesFromInProgressQueue: it ends, loses nothing, and keeps the order.
use mathlib.Core.List.{append-nil, append_assoc, reverse-append}
use go_workers.Prelude.{
  ℕ, zero, suc, ◌<◌, ◌≤◌, String, ◌≡◌, ◌≢◌, refl, ap, sym, ◌∙◌, inl, inr, Option, none, some, List,
  [], ◌∷◌, ◌++◌, reverse, length, length-append, arith, Option-cases,
}
use go_workers.Effect.{Error, redis_nil, no_message, error, Outcome, ok, err, Io}
use go_workers.External.Platform.{Platform}
use go_workers.External.Redis.{Documented}
use go_workers.External.Keyspace.{split_last}
use go_workers.Storage.Keys.{get_queue_name}
use go_workers.Storage.Client.{RedisStore}
use go_workers.Storage.Spec.{Jobs}
use go_workers.Storage.Refinement.{jobs, brpoplpush-Acts}
use go_workers.Storage.RedisStore.Queues.{requeue_loop, requeue_messages_from_in_progress_queue}
use go_workers.Storage.Moved.{
  split_last-none, split_last-append, Moved, popped, Moved-refl, Moved-trans, Moved-one, pop_none,
  pop_some,
}

module _ {p : Platform} (s : RedisStore p) (from to : String) where
  pop : Io s.client.Db String
  pop = s.client.brpoplpush (get_queue_name s.namespace from) (get_queue_name s.namespace to) 1

  loop_ok :
      (n : ℕ) (acc : List String) (w : s.client.Db) (m : String)
      → (pop w).0 ≡ ok m
      → requeue_loop s (suc n) from to acc w ≡ requeue_loop s n from to (acc ++ m ∷ []) (pop w).1
  unfolding requeue_loop pop
  loop_ok n acc w m e = ground arith

  loop_empty :
      (n : ℕ) (acc : List String) (w : s.client.Db)
      → (pop w).0 ≡ err redis_nil
      → requeue_loop s (suc n) from to acc w ≡ (ok (acc, none), (pop w).1)
  unfolding requeue_loop pop
  loop_empty n acc w e = ground arith

  loop_err :
      (n : ℕ) (acc : List String) (w : s.client.Db) (e : Error)
      → e ≢ redis_nil
      → (pop w).0 ≡ err e
      → requeue_loop s (suc n) from to acc w ≡ (ok (acc, some e), (pop w).1)
  unfolding requeue_loop pop
  loop_err n acc w redis_nil h e = absurd (h refl)
  loop_err n acc w no_message h e = ground arith
  loop_err n acc w (error t) h e = ground arith

-- The result of the loop: what it reports, and what has moved.
pub record Requeued {Score : Type 0} (from to : String) (j k : Jobs Score) (acc : List String)
    (r : List String × Option Error) : Type 0 where
  pub moved : Moved from to j k
  pub emptied : r.1 ≡ none → (k.queues from ≡ []) × (r.0 ≡ acc ++ reverse moved.gone)

abbrev pub EndsWith :
    {p : Platform} (s : RedisStore p) (d : Documented s.client) (from to : String)
    → List String
    → s.client.Db
    → Outcome (List String × Option Error) × s.client.Db
    → Type 0
EndsWith s d from to acc w o =
    (r : List String × Option Error) × (o.0 ≡ ok r)
    × Requeued from to (jobs s d w) (jobs s d o.1) acc r

module _ {p : Platform} (s : RedisStore p) (d : Documented s.client) (from to : String)
    (apart : from ≢ to) where
  at_error :
      (n : ℕ) (acc : List String) (w : s.client.Db) (e : Error)
      → e ≢ redis_nil
      → (pop s from to w).0 ≡ err e
      → Moved from to (jobs s d w) (jobs s d (pop s from to w).1)
      → EndsWith s d from to acc w (requeue_loop s (suc n) from to acc w)
  at_error n acc w e h o m =
      rw (loop_err s from to n acc w e h o)
        ((acc, some e), refl, record { moved = m; emptied = λ x. cc })

  at_end :
      (n : ℕ) (acc : List String) (w : s.client.Db)
      → (pop s from to w).0 ≡ err redis_nil
      → (jobs s d w).queues from ≡ []
      → jobs s d (pop s from to w).1 ≡ jobs s d w
      → EndsWith s d from to acc w (requeue_loop s (suc n) from to acc w)
  unfolding Moved-refl
  at_end n acc w o e v = rw (loop_empty s from to n acc w o) (
    (acc, none),
    refl,
    rw v (record { moved = Moved-refl (jobs s d w); emptied = λ _. (e, sym (append-nil acc)) }),
  )

  at_message :
      (n : ℕ) (acc : List String) (w : s.client.Db) (rest : List String) (m : String)
      → (pop s from to w).0 ≡ ok m
      → (jobs s d w).queues from ≡ rest ++ m ∷ []
      → jobs s d (pop s from to w).1 ≡ popped from to (jobs s d w) rest m
      → EndsWith s d from to
          (acc ++ m ∷ [])
          (pop s from to w).1
          (requeue_loop s n from to (acc ++ m ∷ []) (pop s from to w).1)
      → EndsWith s d from to acc w (requeue_loop s (suc n) from to acc w)
  unfolding Moved-one Moved-trans
  at_message n acc w rest m o e v (r, o', q) =
      let one : Moved from to (jobs s d w) (jobs s d (pop s from to w).1) =
        rw v (Moved-one (jobs s d w) rest m apart e) in
      rw (loop_ok s from to n acc w m o) (
        r,
        o',
        record {
          moved = Moved-trans one q.moved;
          emptied = λ x. (
            (q.emptied x).0,
            (q.emptied x).1
                ∙ append_assoc acc (m ∷ []) (reverse q.moved.gone)
                ∙ ap (◌++◌ acc) (sym (reverse-append q.moved.gone (m ∷ []))),
          );
        },
      )

  less :
      (n : ℕ) (w : s.client.Db) (rest : List String) (m : String)
      → (jobs s d w).queues from ≡ rest ++ m ∷ []
      → jobs s d (pop s from to w).1 ≡ popped from to (jobs s d w) rest m
      → length ((jobs s d w).queues from) ≤ n
      → length ((jobs s d (pop s from to w).1).queues from) < n
  unfolding Moved-one
  less n w rest m full v h = omega (
    arith,
    ap length full,
    length-append rest (m ∷ []),
    ap (λ (j : Jobs p.Float). length (j.queues from)) v,
    ap length (Moved-one {from = from} {to = to} (jobs s d w) rest m apart full).after,
  )

  loop_ends :
      (n : ℕ) (acc : List String) (w : s.client.Db)
      → length ((jobs s d w).queues from) < n
      → EndsWith s d from to acc w (requeue_loop s n from to acc w)
  unfolding pop
  loop_ends zero acc w h = absurd (omega arith)
  loop_ends (suc n) acc w h = elim (Option-cases (split_last ((jobs s d w).queues from))) [
    | inl e ↦ elim (brpoplpush-Acts s d from to 1 w) [
      | inl (o, v) ↦
          let q = pop_none from to (jobs s d w) redis_nil e in
          at_end n acc w (o ∙ ap (λ z. z.0) q) (split_last-none _ e) (v ∙ ap (λ z. z.1) q)
      | inr (x, o, nn, inl v) ↦ at_error n acc w x nn o (rw v (Moved-refl (jobs s d w)))
      | inr (x, o, nn, inr v) ↦
          at_error n acc w x nn o
            (rw (v, pop_none from to (jobs s d w) redis_nil e) (Moved-refl (jobs s d w)))
    ]
    | inr ((rest, m), e) ↦
        let full = split_last-append ((jobs s d w).queues from) e in
        let q = pop_some from to (jobs s d w) redis_nil e in
        elim (brpoplpush-Acts s d from to 1 w) [
          | inl (o, v) ↦
              at_message n acc w rest m (o ∙ ap (λ z. z.0) q) full (v ∙ ap (λ z. z.1) q) (
                loop_ends n (acc ++ m ∷ []) (pop s from to w).1
                  (less n w rest m full (v ∙ ap (λ z. z.1) q) (omega arith)))
          | inr (x, o, nn, inl v) ↦ at_error n acc w x nn o (rw v (Moved-refl (jobs s d w)))
          | inr (x, o, nn, inr v) ↦
              at_error n acc w x nn o (rw (v, q) (Moved-one (jobs s d w) rest m apart full))
        ]
  ]

  -- With more rounds than there are messages in progress the loop ends, whatever fails: what it
  -- reports, it has moved, in their order, and it stops without an error only at an empty queue.
  pub requeue_messages_from_in_progress_queue_lem :
      (w : s.client.Db)
      → length ((jobs s d w).queues from) < s.fuel
      → EndsWith s d from to [] w (requeue_messages_from_in_progress_queue s from to w)
  unfolding requeue_messages_from_in_progress_queue
  requeue_messages_from_in_progress_queue_lem w h = loop_ends s.fuel [] w h
