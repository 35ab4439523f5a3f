-- ===== src/Worker/Effects/Fetched.antt =====
-- What fetching a message does to the queue in progress (tryFetchMessage of fetcher.go).
use go_workers.Prelude.{
  ◌≤◌, ◌≡◌, ◌≢◌, sym, ap, ◌∙◌, String, Option, none, some, List, [], ◌∷◌, arith, Option-cases, inl,
  inr, ◌⊎◌,
}
use go_workers.Effect.{Error, text, no_message, Outcome, ok, err}
use go_workers.External.Platform.{Platform}
use go_workers.External.Keyspace.{split_last}
use go_workers.Storage.Laws.{StoreLaws}
use go_workers.Storage.Moved.{pop_none, pop_some, arrived-popped}
use go_workers.Storage.Spec.{Jobs, take_oldest}
use go_workers.Msg.{Msg}
use go_workers.Job.{Env}
use go_workers.Worker.{SimpleFetcher, in_progress_queue, try_fetch_message}
use go_workers.Worker.Held.{deq, fetch_value, fetch_failed, send_some}
use go_workers.Worker.System.Counts.{count}
use go_workers.Worker.Effects.{queue-ne-in_progress, send_none, in_progress, same}

taken-count :
    {Score : Type 0} (q r x : String) (j : Jobs Score)
    → q ≢ r
    → count x (j.queues r) ≤ count x ((take_oldest q r j).1.queues r)
taken-count q r x j apart = elim (Option-cases (split_last (j.queues q))) [
  | inl n ↦ rw (pop_none q r j no_message n) (omega arith)
  | inr ((rest, m), n) ↦
      rw (pop_some q r j no_message n)
        (omega (arith, ap (count x) (arrived-popped {from = q} {to = r} j rest m apart)))
]

module _ {p : Platform} (env : Env p) (f : SimpleFetcher) (jobs : env.World → Jobs p.Float)
    (laws : StoreLaws p.ltf env.store jobs)
    (quiet : (words : List String) (w : env.World) → jobs (env.println words w) ≡ jobs w)
    (w : env.World) where
  abbrev d : Outcome String × env.World
  d = deq env f w

  abbrev r : String
  r = in_progress_queue f

  abbrev fetched : Outcome (Option (Msg p)) × env.World
  fetched = try_fetch_message env f w

  after_error : (e : Error) → d.0 ≡ err e → jobs fetched.1 ≡ jobs d.1
  unfolding try_fetch_message
  after_error Error.redis_nil o =
      ground (arith, quiet ("ERR: " ∷ f.queue ∷ text Error.redis_nil ∷ []) d.1)
  after_error no_message o = ground arith
  after_error (Error.error s) o =
      ground (arith, quiet ("ERR: " ∷ f.queue ∷ text (Error.error s) ∷ []) d.1)

  -- The store has moved a message.
  abbrev Took : String → Type 0
  Took raw = (d.0 ≡ ok raw) × (in_progress env f jobs d.1 ≡ raw ∷ in_progress env f jobs w)

  -- The store has failed, and may have moved a message.
  abbrev Refused : Type 0
  Refused =
      (e : Error) × (d.0 ≡ err e)
      × ((x : String) → count x (in_progress env f jobs w) ≤ count x (in_progress env f jobs d.1))

  kept :
      (x : String)
      → jobs d.1 ≡ (take_oldest f.queue r (jobs w)).1
      → count x (in_progress env f jobs w) ≤ count x (in_progress env f jobs d.1)
  kept x v = omega (
    arith,
    taken-count f.queue r x (jobs w) (queue-ne-in_progress f),
    ap (λ (j : Jobs p.Float). count x (j.queues r)) v,
  )

  cases : ((raw : String) × Took raw) ⊎ Refused
  cases = elim (laws.dequeue f.queue r 1 w) [
    | inr (e, o, _, inl v) ↦
        inr (e, o, λ x. omega (arith, ap (count x) (same env f jobs laws quiet v)))
    | inr (e, o, _, inr v) ↦ inr (e, o, λ x. kept x v)
    | inl (o, v) ↦ elim (Option-cases (split_last ((jobs w).queues f.queue))) [
      | inl n ↦
          let q = pop_none f.queue r (jobs w) no_message n in
          inr (no_message, o ∙ ap (λ z. z.0) q, λ x. kept x v)
      | inr ((rest, m), n) ↦
          let q = pop_some f.queue r (jobs w) no_message n in
          inl (
            m,
            (
              o ∙ ap (λ z. z.0) q,
              ap (λ (j : Jobs p.Float). j.queues r) (v ∙ ap (λ z. z.1) q)
                  ∙ arrived-popped {from = f.queue} {to = r} (jobs w) rest m
                      (queue-ne-in_progress f),
            ),
          )
    ]
  ]

  -- A message that is fetched is new in the queue in progress.
  pub fetch_some :
      (m : Msg p)
      → fetched.0 ≡ ok (some m)
      → in_progress env f jobs fetched.1 ≡ m.original ∷ in_progress env f jobs w
  fetch_some m o = elim cases [
    | inr (e, q, _) ↦ absurd (cc (sym (fetch_failed env f w e q) ∙ o))
    | inl (raw, (q, arrived)) ↦
        let sent = fetch_value env f w raw q in
        let same_text = send_some env f w raw d.1 m (sym (ap (λ z. z.0) sent) ∙ o) in
        rw (sent, same_text.1, same_text.0) arrived
  ]

  -- Where none is fetched, the queue in progress has lost nothing.
  pub fetch_none :
      (x : String)
      → fetched.0 ≡ ok none
      → count x (in_progress env f jobs w) ≤ count x (in_progress env f jobs fetched.1)
  fetch_none x o = elim cases [
    | inr (e, q, more) ↦
        omega (arith, more x, ap (count x) (same env f jobs laws quiet (after_error e q)))
    | inl (raw, (q, arrived)) ↦
        let sent = fetch_value env f w raw q in
        let (words, logged) = send_none env f jobs raw d.1 (sym (ap (λ z. z.0) sent) ∙ o) in
        rw (sent, logged)
          (omega (
            arith,
            ap (count x) (same env f jobs laws quiet (quiet words d.1)),
            ap (count x) arrived,
          ))
  ]
