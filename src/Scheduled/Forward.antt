-- ===== src/Scheduled/Forward.antt =====
-- One round of the poll's loops (scheduled.go): it returns, and leaves the sorted sets to the dequeue.
use go_workers.Prelude.{
  ℕ, suc, ◌<◌, ◌≤◌, ◌≡◌, refl, ap, String, true, List, [], ◌∷◌, ◌⊎◌, inl, inr, length, arith,
}
use go_workers.Effect.{Error, Outcome, ok, err, panic, Io, ◌>>◌, ◌>>=◌}
use go_workers.External.Platform.{Platform}
use go_workers.External.Keyspace.{contains, members, without_member}
use go_workers.Storage.Laws.{StoreLaws}
use go_workers.Storage.Spec.{Jobs}
use go_workers.Prelude.Int.{pos}
use go_workers.Msg.{Msg, new_msg, new_data, set_field, to_json}
use go_workers.Job.{Env, nanoseconds_to_seconds}
use go_workers.Scheduled.{nil_dereference, queue_of, forward, drain}

module _ {Score : Type 0} where
  length-without_member :
      (m : String) (zs : List (Score × String)) → length (without_member m zs) ≤ length zs
  length-without_member m [] = omega arith
  length-without_member m ((s, x) ∷ zs) = ground (arith, length-without_member m zs)

  pub without_member-shorter :
      (m : String) (zs : List (Score × String))
      → contains m (members zs) ≡ true
      → length (without_member m zs) < length zs
  without_member-shorter m [] h = cc
  without_member-shorter m ((s, x) ∷ zs) h =
      ground (arith, length-without_member m zs, without_member-shorter m zs)

  abbrev pub SameSets : Jobs Score → Jobs Score → Type 0
  SameSets j k = (k.scheduled ≡ j.scheduled) × (k.retries ≡ j.retries)

module _ {p : Platform} (env : Env p) (namespace : String) where
  -- A call of the poll returned, or it met a text that is no JSON document.
  abbrev pub Returned : Outcome (Unit {0}) → Type 0
  Returned o =
      (o ≡ ok tt)
      ⊎ ((o ≡ panic nil_dereference) × (raw : String) × (e : Error) × (p.new_json raw ≡ err e))

  pub drain_failed :
      (n : ℕ) (dequeue : Io env.World String) (w : env.World) (e : Error)
      → (dequeue w).0 ≡ err e
      → drain env namespace (suc n) dequeue w ≡ (ok tt, (dequeue w).1)
  unfolding drain
  drain_failed n dequeue w e h = ground arith

  pub drain_value :
      (n : ℕ) (dequeue : Io env.World String) (w : env.World) (raw : String)
      → (dequeue w).0 ≡ ok raw
      → drain env namespace (suc n) dequeue w
        ≡ (forward env namespace raw >> drain env namespace n dequeue) (dequeue w).1
  unfolding drain
  drain_value n dequeue w raw h = ground arith

  pub after_forward :
      (n : ℕ) (dequeue : Io env.World String) (raw : String) (w : env.World)
      → (forward env namespace raw w).0 ≡ ok tt
      → (forward env namespace raw >> drain env namespace n dequeue) w
        ≡ drain env namespace n dequeue (forward env namespace raw w).1
  after_forward n dequeue raw w h = rw (h, ◌>>=◌)

  pub after_panic :
      (n : ℕ) (dequeue : Io env.World String) (raw : String) (w : env.World)
      → (forward env namespace raw w).0 ≡ panic nil_dereference
      → (forward env namespace raw >> drain env namespace n dequeue) w
        ≡ (panic nil_dereference, (forward env namespace raw w).1)
  after_panic n dequeue raw w h = rw (h, ◌>>=◌)

  -- The message that a text stands for, and the time at which it is forwarded.
  abbrev pub message : String → p.Json → Msg p
  message raw j = record { json = j; original = raw; ack = true; started_at = pos 0 }

  abbrev pub stamped : String → p.Json → env.World → String
  stamped raw j w = to_json (
      set_field "enqueued_at" (p.json_float (nanoseconds_to_seconds p (env.now w).0))
        (message raw j))

  abbrev pub forwarded : String → p.Json → env.World → Outcome (Unit {0}) × env.World
  forwarded raw j w =
      env.store.enqueue_message_now (queue_of env namespace (message raw j)) (stamped raw j w)
        (env.now w).1

  forward_bad :
      (raw : String) (w : env.World) (e : Error)
      → p.new_json raw ≡ err e
      → forward env namespace raw w ≡ (panic nil_dereference, w)
  unfolding forward new_msg new_data
  forward_bad raw w e h = ground arith

  pub forward_good :
      (raw : String) (w : env.World) (j : p.Json)
      → p.new_json raw ≡ ok j
      → ((forwarded raw j w).0 ≡ ok tt) ⊎ ((e : Error) × ((forwarded raw j w).0 ≡ err e))
      → forward env namespace raw w ≡ (ok tt, (forwarded raw j w).1)
  unfolding forward new_msg new_data
  forward_good raw w j h (inl o) = ground arith
  forward_good raw w j h (inr (e, o)) = ground arith

  module _ (jobs : env.World → Jobs p.Float) (laws : StoreLaws p.ltf env.store jobs)
      (still : (w : env.World) → jobs (env.now w).1 ≡ jobs w)
      (reads : (s : String)
        → ((j : p.Json) × (p.new_json s ≡ ok j)) ⊎ ((e : Error) × (p.new_json s ≡ err e))) where
    -- Forwarding a message touches neither of the sets.
    pub enqueue_keeps :
        (q m : String) (w : env.World)
        → SameSets (jobs w) (jobs (env.store.enqueue_message_now q m w).1)
          × (((env.store.enqueue_message_now q m w).0 ≡ ok tt)
              ⊎ ((e : Error) × ((env.store.enqueue_message_now q m w).0 ≡ err e)))
    enqueue_keeps q m w = elim (laws.enqueue_now q m w) [
      | inl (o, v) ↦ (
        (ap (λ (j : Jobs p.Float). j.scheduled) v, ap (λ (j : Jobs p.Float). j.retries) v),
        inl o,
      )
      | inr (e, o, h, inl v) ↦ (
        (ap (λ (j : Jobs p.Float). j.scheduled) v, ap (λ (j : Jobs p.Float). j.retries) v),
        inr (e, o),
      )
      | inr (e, o, h, inr v) ↦ (
        (ap (λ (j : Jobs p.Float). j.scheduled) v, ap (λ (j : Jobs p.Float). j.retries) v),
        inr (e, o),
      )
    ]

    pub forward_keeps :
        (raw : String) (w : env.World)
        → Returned (forward env namespace raw w).0
          × SameSets (jobs w) (jobs (forward env namespace raw w).1)
    forward_keeps raw w = elim (reads raw) [
      | inl (j, h) ↦
          let q =
            enqueue_keeps (queue_of env namespace (message raw j)) (stamped raw j w)
              (env.now w).1 in
          let same : SameSets (jobs w) (jobs (forwarded raw j w).1) = rw (← still w) q.0 in
          rw (forward_good raw w j h q.1) (inl refl, same)
      | inr (e, h) ↦ rw (forward_bad raw w e h) (inr (refl, raw, e, h), (refl, refl))
    ]
