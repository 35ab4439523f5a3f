-- ===== src/Scheduled/Returns.antt =====
-- A message that was put in the retry set goes back to the queue that it came from
-- (middleware_retry.go, scheduled.go).
use package.text.Mathlib.TextLemmas.{nil-append, cons-append}
use Prim.Native.Char.{code}
use go_workers.Prelude.{
  ℕ, ◌==◌, ◌≡◌, refl, ap, ◌∙◌, String, ◌<>◌, true, Option, some, List, ◌∷◌, ◌⊎◌, inl, inr, arith,
  eq_refl,
}
use go_workers.Prelude.Int.{ltb_ℤ}
use go_workers.Effect.{Error, Outcome, ok, err}
use go_workers.External.Platform.{Platform, Lawful}
use go_workers.Storage.Laws.{StoreLaws}
use go_workers.Storage.Spec.{Jobs}
use go_workers.Msg.{Msg, to_json}
use go_workers.Job.{Env, Frame, RetriesExhaustedFunc}
use go_workers.Middleware.Retry.{retry, retry_count, retry_max, retry_process_error}
use go_workers.Middleware.Retry.Fields.{retry_fields}
use go_workers.Scheduled.{after_prefix, trim_prefix, queue_of, forward}
use go_workers.Scheduled.Forward.{message, stamped, forwarded, forward_good}

same_code : (c : ℕ) → (c == c) ≡ true
same_code c = ground arith

after_prefix-append : (ns q : String) → after_prefix ns (ns <> q) ≡ some q
after_prefix-append String.[] q = ap some (nil-append q)
after_prefix-append (String.◌∷◌ c ns) q =
    ap (after_prefix (String.◌∷◌ c ns)) (cons-append c ns q)
    ∙ rw (same_code (code c)) (after_prefix-append ns q)

trim_prefix-append : (ns q : String) → trim_prefix (ns <> q) ns ≡ q
unfolding trim_prefix
trim_prefix-append ns q = rw (after_prefix-append ns q, trim_prefix) refl

module _ {p : Platform} (env : Env p) (jobs : env.World → Jobs p.Float) where
  -- A text that is put in the front of a queue, or that the store refuses
  abbrev pub Queued : (q m : String) → env.World → Outcome (Unit {0}) × env.World → Type 0
  Queued q m w o =
      (o.0 ≡ ok tt)
      × (((jobs o.1).queues q ≡ m ∷ (jobs w).queues q)
          ⊎ ((x : Error) × ((env.store.enqueue_message_now q m (env.now w).1).0 ≡ err x)))

module _ {p : Platform} (l : Lawful p) (env : Env p) (namespace : String)
    (jobs : env.World → Jobs p.Float) (laws : StoreLaws p.ltf env.store jobs)
    (still : (w : env.World) → jobs (env.now w).1 ≡ jobs w)
    (handlers : List (RetriesExhaustedFunc env)) (queue : String) (e : Error) (f : Frame env) where
  -- The message that the retry middleware leaves, under the name that the manager gives a queue
  abbrev pub retried : Msg p
  retried = (retry_process_error env handlers (namespace <> queue) e f).1.message

  abbrev pub kept_text : String
  kept_text = to_json retried

  queue_of-retried :
      p.is_object f.message.json ≡ true
      → retry f.message ≡ true
      → ltb_ℤ (retry_count f.message) (retry_max f.message) ≡ true
      → queue_of env namespace (message env namespace kept_text retried.json) ≡ queue
  unfolding queue_of
  queue_of-retried object r k =
      let fields = retry_fields l env (namespace <> queue) e f object handlers r k in
      ap (λ (x : String × Option Error). trim_prefix x.0 namespace) fields.1
      ∙ trim_prefix-append namespace queue

  -- A failed job that may be retried goes back to the queue that it came from. Its middleware has the
  -- name of the queue under the namespace, and the poll takes the namespace away: when it forwards
  -- the text of the message that the middleware leaves, this enters the queue in front, stamped with
  -- the time, or the store reports an error. For a store that keeps its contract, a clock that leaves
  -- the jobs alone, lawful JSON, a message that is an object, and a text that is read as it was
  -- written.
  pub retried_returns :
      (w : env.World)
      → p.is_object f.message.json ≡ true
      → retry f.message ≡ true
      → ltb_ℤ (retry_count f.message) (retry_max f.message) ≡ true
      → p.new_json kept_text ≡ ok retried.json
      → Queued env jobs queue
          (stamped env namespace kept_text retried.json w)
          w
          (forward env namespace kept_text w)
  retried_returns w object r k read =
      let m = stamped env namespace kept_text retried.json w in
      let named = queue_of-retried object r k in
      let sent = env.store.enqueue_message_now queue m (env.now w).1 in
      let same : forwarded env namespace kept_text retried.json w ≡ sent =
        ap (λ q. env.store.enqueue_message_now q m (env.now w).1) named in
      elim (laws.enqueue_now queue m (env.now w).1) [
        | inl (o, v) ↦
            let path =
              forward_good env namespace kept_text w retried.json read
                (inl (ap (λ z. z.0) same ∙ o)) in
            rw (path, same)
              (
                refl,
                inl (
                    ap (λ (j : Jobs p.Float). j.queues queue) v
                    ∙ rw (eq_refl queue) (ap (λ (j : Jobs p.Float). m ∷ j.queues queue) (still w))),
              )
        | inr (x, o, h, v) ↦
            let path =
              forward_good env namespace kept_text w retried.json read
                (inr (x, ap (λ z. z.0) same ∙ o)) in
            rw path (refl, inr (x, o))
      ]
