-- ===== src/Scheduled/Ends.antt =====
-- The poll of scheduled.go ends: every round takes a message out of its set.
use go_workers.Prelude.{
  ℕ, zero, suc, ◌<◌, ◌≤◌, ◌≡◌, refl, ap, ◌∙◌, String, Bool, some, List, ◌⊎◌, inl, inr, length,
  arith, Option-cases,
}
use go_workers.Effect.{Error, no_message, Outcome, ok, err, Io, ◌>>◌, ◌>>=◌, Acts}
use go_workers.External.Platform.{Platform}
use go_workers.External.Keyspace.{first_due, without_member}
use go_workers.Storage.Laws.{StoreLaws}
use go_workers.Storage.Due.{contains-first_due}
use go_workers.Storage.Spec.{Jobs, take_scheduled, take_retried}
use go_workers.Job.{Env, nanoseconds_to_seconds}
use go_workers.Scheduled.{forward, drain, poll, run}
use go_workers.Scheduled.Forward.{
  Returned, SameSets, without_member-shorter, drain_failed, drain_value, after_forward, after_panic,
  forward_keeps,
}

-- What a loop needs of the dequeue: an answer takes a message from its set and leaves the other.
pub record Takes {Score : Type 0} (take : Jobs Score → Outcome String × Jobs Score)
    (set other : Jobs Score → List (Score × String)) : Type 0 where
  pub answers :
      (j : Jobs Score)
      → ((m : String) × ((take j).0 ≡ ok m) × (length (set (take j).1) < length (set j)))
        ⊎ ((e : Error) × ((take j).0 ≡ err e))
  pub never_grows : (j : Jobs Score) → length (set (take j).1) ≤ length (set j)
  pub leaves : (j : Jobs Score) → other (take j).1 ≡ other j
  pub set-same : (j k : Jobs Score) → SameSets j k → set k ≡ set j
  pub other-same : (j k : Jobs Score) → SameSets j k → other k ≡ other j

module _ {Score : Type 0} (lt : Score → Score → Bool) (max : Score) where
  due_shrinks :
      (zs : List (Score × String)) (m : String)
      → first_due (λ s t. lt t s) max zs ≡ some m
      → length (without_member m zs) < length zs
  due_shrinks zs m e = without_member-shorter m zs (contains-first_due (λ s t. lt t s) max zs m e)

  pub take_scheduled-Takes : Takes (take_scheduled lt max) (λ j. j.scheduled) (λ j. j.retries)
  take_scheduled-Takes = record {
    answers = λ j. elim (Option-cases (first_due (λ s t. lt t s) max j.scheduled)) [
      | inl e ↦ inr (no_message, rw (e, take_scheduled))
      | inr (m, e) ↦
          inl (m, rw (e, take_scheduled), rw (e, take_scheduled) (due_shrinks j.scheduled m e))
    ];
    never_grows = λ j. elim (Option-cases (first_due (λ s t. lt t s) max j.scheduled)) [
      | inl e ↦ rw (e, take_scheduled) (omega arith)
      | inr (m, e) ↦ rw (e, take_scheduled) (omega (arith, due_shrinks j.scheduled m e))
    ];
    leaves = λ j. ground arith;
    set-same = λ j k s. s.0;
    other-same = λ j k s. s.1;
  }

  pub take_retried-Takes : Takes (take_retried lt max) (λ j. j.retries) (λ j. j.scheduled)
  take_retried-Takes = record {
    answers = λ j. elim (Option-cases (first_due (λ s t. lt t s) max j.retries)) [
      | inl e ↦ inr (no_message, rw (e, take_retried))
      | inr (m, e) ↦ inl (m, rw (e, take_retried), rw (e, take_retried) (due_shrinks j.retries m e))
    ];
    never_grows = λ j. elim (Option-cases (first_due (λ s t. lt t s) max j.retries)) [
      | inl e ↦ rw (e, take_retried) (omega arith)
      | inr (m, e) ↦ rw (e, take_retried) (omega (arith, due_shrinks j.retries m e))
    ];
    leaves = λ j. ground arith;
    set-same = λ j k s. s.1;
    other-same = λ j k s. s.0;
  }

module _ {p : Platform} (env : Env p) (namespace : String) (jobs : env.World → Jobs p.Float)
    (laws : StoreLaws p.ltf env.store jobs) (still : (w : env.World) → jobs (env.now w).1 ≡ jobs w)
    (reads : (s : String)
      → ((j : p.Json) × (p.new_json s ≡ ok j)) ⊎ ((e : Error) × (p.new_json s ≡ err e))) where
  module _ (take : Jobs p.Float → Outcome String × Jobs p.Float)
      (set other : Jobs p.Float → List (p.Float × String)) (t : Takes take set other)
      (dequeue : Io env.World String) (acts : Acts jobs take dequeue) where
    abbrev Ended : env.World → Outcome (Unit {0}) × env.World → Type 0
    Ended w o =
        Returned env namespace o.0
        × (other (jobs o.1) ≡ other (jobs w))
        × (length (set (jobs o.1)) ≤ length (set (jobs w)))

    at_failure :
        (n : ℕ) (w : env.World) (e : Error)
        → (dequeue w).0 ≡ err e
        → other (jobs (dequeue w).1) ≡ other (jobs w)
        → length (set (jobs (dequeue w).1)) ≤ length (set (jobs w))
        → Ended w (drain env namespace (suc n) dequeue w)
    at_failure n w e h k l = rw (drain_failed env namespace n dequeue w e h) (inl refl, k, l)

    pub drain_ends :
        (n : ℕ) (w : env.World)
        → length (set (jobs w)) < n
        → Ended w (drain env namespace n dequeue w)
    drain_ends zero w h = absurd (omega arith)
    drain_ends (suc n) w h = elim (acts w) [
      | inl (o, v) ↦ elim (t.answers (jobs w)) [
        | inr (e, q) ↦
            at_failure n w e (o ∙ q) (ap other v ∙ t.leaves (jobs w))
              (omega (arith, ap (λ (j : Jobs p.Float). length (set j)) v, t.never_grows (jobs w)))
        | inl (raw, q, less) ↦
            let w' = (dequeue w).1 in
            let f = forward_keeps env namespace jobs laws still reads raw w' in
            let w'' = (forward env namespace raw w').1 in
            let kept : other (jobs w'') ≡ other (jobs w) =
              t.other-same (jobs w') (jobs w'') f.1 ∙ ap other v ∙ t.leaves (jobs w) in
            let fewer : length (set (jobs w'')) < length (set (jobs w)) = omega (
              arith,
              ap length (t.set-same (jobs w') (jobs w'') f.1),
              ap (λ (j : Jobs p.Float). length (set j)) v,
              less,
            ) in
            rw (drain_value env namespace n dequeue w raw (o ∙ q)) (elim f.0 [
              | inl done ↦
                  let r = drain_ends n w'' (omega (arith, fewer)) in
                  rw (after_forward env namespace n dequeue raw w' done)
                    (r.0, r.1 ∙ kept, omega (arith, r.2, fewer))
              | inr (bad, raw', e', x) ↦
                  rw (after_panic env namespace n dequeue raw w' bad)
                    (inr (refl, raw', e', x), kept, omega (arith, fewer))
            ])
      ]
      | inr (e, o, h', inl v) ↦
          at_failure n w e o (ap other v)
            (omega (arith, ap (λ (j : Jobs p.Float). length (set j)) v))
      | inr (e, o, h', inr v) ↦
          at_failure n w e o (ap other v ∙ t.leaves (jobs w))
            (omega (arith, ap (λ (j : Jobs p.Float). length (set j)) v, t.never_grows (jobs w)))
    ]

  -- More fuel than there are messages in either set
  abbrev Fits : ℕ → env.World → Type 0
  Fits fuel w = (length (jobs w).scheduled < fuel) × (length (jobs w).retries < fuel)

  abbrev Kept : ℕ → Outcome (Unit {0}) × env.World → Type 0
  Kept fuel o = Returned env namespace o.0 × Fits fuel o.1

  then-Kept :
      (fuel : ℕ) (m k : Io env.World (Unit {0})) (w : env.World)
      → Kept fuel (m w)
      → ((m w).0 ≡ ok tt → Kept fuel (k (m w).1))
      → Kept fuel ((m >> k) w)
  then-Kept fuel m k w (inl o, fits) next = rw (o, ◌>>=◌) (next o)
  then-Kept fuel m k w (inr (o, raw, e, x), fits) next = rw (o, ◌>>=◌) (inr (refl, raw, e, x), fits)

  poll-Kept : (fuel : ℕ) (w : env.World) → Fits fuel w → Kept fuel (poll env namespace fuel w)
  unfolding poll
  poll-Kept fuel w h =
      let w' = (env.now w).1 in
      let max = nanoseconds_to_seconds p (env.now w).0 in
      let first =
        drain_ends (take_scheduled p.ltf max) (λ j. j.scheduled) (λ j. j.retries)
          (take_scheduled-Takes p.ltf max) (env.store.dequeue_scheduled_message max)
          (laws.due_scheduled max) fuel w' (rw (still w) h.0) in
      let one = drain env namespace fuel (env.store.dequeue_scheduled_message max) in
      let two = drain env namespace fuel (env.store.dequeue_retried_message max) in
      let scheduled : length (jobs (one w').1).scheduled < fuel =
        omega (arith, first.2, h.0, ap (λ (j : Jobs p.Float). length j.scheduled) (still w)) in
      let retries : length (jobs (one w').1).retries < fuel = rw (first.1, still w) h.1 in
      then-Kept fuel one two w' (first.0, (scheduled, retries))
        (λ o.
          let second =
            drain_ends (take_retried p.ltf max) (λ j. j.retries) (λ j. j.scheduled)
              (take_retried-Takes p.ltf max) (env.store.dequeue_retried_message max)
              (laws.due_retried max) fuel (one w').1 retries in
          (second.0, (rw second.1 scheduled, omega (arith, second.2, retries))))

  run-Kept :
      (ticks fuel : ℕ) (w : env.World) → Fits fuel w → Kept fuel (run env namespace ticks fuel w)
  unfolding run
  run-Kept zero fuel w h = (inl refl, h)
  run-Kept (suc n) fuel w h =
      let one = poll-Kept fuel w h in
      then-Kept fuel (poll env namespace fuel) (run env namespace n fuel) w one
        (λ o. run-Kept n fuel (poll env namespace fuel w).1 one.1)

  -- With a store that keeps its contract, a clock that leaves the jobs alone and more fuel for each
  -- poll than there are messages in either set at the beginning, the scheduled worker comes to the
  -- end of any number of ticks, whatever the store refuses: it returns, or it panics with a nil
  -- pointer, and that only if some text is no JSON document.
  pub run_ends :
      (ticks fuel : ℕ) (w : env.World)
      → length (jobs w).scheduled < fuel
      → length (jobs w).retries < fuel
      → Returned env namespace (run env namespace ticks fuel w).0
  run_ends ticks fuel w hs hr = (run-Kept ticks fuel w (hs, hr)).0
