-- ===== src/Scheduled/Empties.antt =====
-- What a poll leaves behind (scheduled.go).
use go_workers.Prelude.{
  ℕ, zero, suc, ◌<◌, ◌≡◌, refl, ap, sym, subst, ◌∙◌, String, none, List, ◌⊎◌, inl, inr, length,
  arith, Option-cases,
}
use go_workers.Effect.{Error, Outcome, ok, err, panic, spin, Io, ◌>>◌, ◌>>=◌, Done}
use go_workers.Effect.Inverse.{bind_ok}
use go_workers.External.Platform.{Platform}
use go_workers.External.Keyspace.{first_due}
use go_workers.Storage.Laws.{StoreLaws}
use go_workers.Storage.Spec.{Jobs, take_scheduled, take_retried}
use go_workers.Job.{Env, nanoseconds_to_seconds}
use go_workers.Scheduled.{nil_dereference, forward, drain, poll}
use go_workers.Scheduled.Forward.{
  drain_failed, drain_value, after_forward, after_panic, forward_keeps,
}
use go_workers.Scheduled.Ends.{Takes, take_scheduled-Takes, take_retried-Takes, drain_ends}

-- No score of the set is below the time or equal to it.
abbrev pub Rested : (p : Platform) → p.Float → List (p.Float × String) → Type 0
Rested p max zs = first_due (λ s t. p.ltf t s) max zs ≡ none

module _ {p : Platform} (env : Env p) (namespace : String) (jobs : env.World → Jobs p.Float)
    (laws : StoreLaws p.ltf env.store jobs) (still : (w : env.World) → jobs (env.now w).1 ≡ jobs w)
    (reads : (s : String)
      → ((j : p.Json) × (p.new_json s ≡ ok j)) ⊎ ((e : Error) × (p.new_json s ≡ err e))) where
  drain-zero :
      (dequeue : Io env.World String) (w : env.World)
      → drain env namespace zero dequeue w ≡ (spin, w)
  unfolding drain
  drain-zero dequeue w = refl

  module _ (max : p.Float) (take : Jobs p.Float → Outcome String × Jobs p.Float)
      (set other : Jobs p.Float → List (p.Float × String)) (t : Takes take set other)
      (rests : (j : Jobs p.Float) (e : Error) → (take j).0 ≡ err e → Rested p max (set (take j).1))
      (dequeue : Io env.World String) (does : (w : env.World) → Done jobs take dequeue w) where
    -- A loop that returns has emptied its set of what is due.
    drain_empties :
        (n : ℕ) (w : env.World)
        → (drain env namespace n dequeue w).0 ≡ ok tt
        → Rested p max (set (jobs (drain env namespace n dequeue w).1))
    drain_empties zero w h = cc (h, ap (λ r. r.0) (drain-zero dequeue w))
    drain_empties (suc n) w h = elim (t.answers (jobs w)) [
      | inr (e, q) ↦
          let d = does w in
          rw (drain_failed env namespace n dequeue w e (d.0 ∙ q))
            (subst (λ j. Rested p max (set j)) (sym d.1) (rests (jobs w) e q))
      | inl (raw, q, less) ↦
          let d = does w in
          let w' = (dequeue w).1 in
          elim (forward_keeps env namespace jobs laws still reads raw w').0 [
            | inl good ↦
                let path =
                  drain_value env namespace n dequeue w raw (d.0 ∙ q)
                  ∙ after_forward env namespace n dequeue raw w' good in
                subst (λ (r : Outcome (Unit {0}) × env.World). Rested p max (set (jobs r.1)))
                  (sym path)
                  (drain_empties n (forward env namespace raw w').1 (sym (ap (λ r. r.0) path) ∙ h))
            | inr (bad, raw', e', x) ↦
                let path =
                  drain_value env namespace n dequeue w raw (d.0 ∙ q)
                  ∙ after_panic env namespace n dequeue raw w' bad in
                cc (h, ap (λ r. r.0) path)
          ]
    ]

  scheduled_rests :
      (max : p.Float) (j : Jobs p.Float) (e : Error)
      → (take_scheduled p.ltf max j).0 ≡ err e
      → Rested p max (take_scheduled p.ltf max j).1.scheduled
  scheduled_rests max j e h = elim (Option-cases (first_due (λ s t. p.ltf t s) max j.scheduled)) [
    | inl n ↦ rw (n, take_scheduled) n
    | inr (m, s) ↦ ground (arith, s, h)
  ]

  retried_rests :
      (max : p.Float) (j : Jobs p.Float) (e : Error)
      → (take_retried p.ltf max j).0 ≡ err e
      → Rested p max (take_retried p.ltf max j).1.retries
  retried_rests max j e h = elim (Option-cases (first_due (λ s t. p.ltf t s) max j.retries)) [
    | inl n ↦ rw (n, take_retried) n
    | inr (m, s) ↦ ground (arith, s, h)
  ]

  -- How a poll ends that begins in a world: it has returned, and nothing is due, or it met a text
  -- that is no JSON document.
  abbrev pub Emptied : env.World → Outcome (Unit {0}) × env.World → Type 0
  Emptied w o =
      ((o.0 ≡ ok tt)
        × (Rested p (nanoseconds_to_seconds p (env.now w).0) (jobs o.1).scheduled
            × Rested p (nanoseconds_to_seconds p (env.now w).0) (jobs o.1).retries))
      ⊎ ((o.0 ≡ panic nil_dereference) × (raw : String) × (e : Error) × (p.new_json raw ≡ err e))

  -- With a store that does what it is asked, a clock that leaves the jobs alone, and more fuel than
  -- there are messages in either set, a poll returns and leaves no scheduled message and no retry
  -- whose time had come when it began, or it panics with a nil pointer, and that only if some text
  -- is no JSON document.
  pub nothing_due :
      (fuel : ℕ) (w : env.World)
      → ((max : p.Float) (v : env.World)
          → Done jobs (take_scheduled p.ltf max) (env.store.dequeue_scheduled_message max) v)
      → ((max : p.Float) (v : env.World)
          → Done jobs (take_retried p.ltf max) (env.store.dequeue_retried_message max) v)
      → length (jobs w).scheduled < fuel
      → length (jobs w).retries < fuel
      → Emptied w (poll env namespace fuel w)
  unfolding poll
  nothing_due fuel w does_scheduled does_retried hs hr =
      let w' = (env.now w).1 in
      let max = nanoseconds_to_seconds p (env.now w).0 in
      let one = drain env namespace fuel (env.store.dequeue_scheduled_message max) in
      let two = drain env namespace fuel (env.store.dequeue_retried_message max) in
      let v = (one w').1 in
      let first =
        drain_ends env namespace jobs laws still reads (take_scheduled p.ltf max) (λ j. j.scheduled)
          (λ j. j.retries) (take_scheduled-Takes p.ltf max)
          (env.store.dequeue_scheduled_message max) (laws.due_scheduled max) fuel w'
          (rw (still w) hs) in
      let second =
        drain_ends env namespace jobs laws still reads (take_retried p.ltf max) (λ j. j.retries)
          (λ j. j.scheduled) (take_retried-Takes p.ltf max) (env.store.dequeue_retried_message max)
          (laws.due_retried max) fuel v (rw (first.1, still w) hr) in
      elim first.0 [
        | inr (bad, raw, e, x) ↦ inr (rw (bad, ◌>>=◌) refl, raw, e, x)
        | inl o ↦
            let path : (one >> two) w' ≡ two v =
              bind_ok one (λ u. two) w' v tt (ap (λ r. (r, v)) o) in
            let rested =
              drain_empties max (take_scheduled p.ltf max) (λ j. j.scheduled) (λ j. j.retries)
                (take_scheduled-Takes p.ltf max) (scheduled_rests max)
                (env.store.dequeue_scheduled_message max) (does_scheduled max) fuel w' o in
            subst (Emptied w) (sym path) (elim second.0 [
              | inr bad ↦ inr bad
              | inl e ↦
                  let retried =
                    drain_empties max (take_retried p.ltf max) (λ j. j.retries) (λ j. j.scheduled)
                      (take_retried-Takes p.ltf max) (retried_rests max)
                      (env.store.dequeue_retried_message max) (does_retried max) fuel v e in
                  inl (e, (subst (Rested p max) (sym second.1) rested, retried))
            ])
      ]
