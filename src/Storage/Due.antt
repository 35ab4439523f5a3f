-- ===== src/Storage/Due.antt =====
-- Taking a due message from a sorted set: ZRANGEBYSCORE and then ZREM of what it found.
use go_workers.Prelude.{
  ℕ, String, ◌<>◌, ◌≡◌, refl, Bool, true, Option, none, some, List, [], ◌∷◌, arith, if◌then◌else◌,
  ◌==◌, Option-cases, Bool-cases, inl, inr, eq_refl,
}
use go_workers.Effect.{no_message, Outcome, ok, err, Acts, Acts-rename, Acts-then}
use go_workers.External.Platform.{Platform}
use go_workers.External.Redis.{Documented}
use go_workers.External.Keyspace.{
  Keyspace, at, contains, members, without_member, first_due, find_due, drop_member,
}
use go_workers.Storage.Types.{retry_key, scheduled_jobs_key}
use go_workers.Storage.Keys.{retry_key-ne-scheduled, scheduled-ne-retry_key}
use go_workers.Storage.Client.{RedisStore}
use go_workers.Storage.Spec.{jobs_of, take_scheduled, take_retried}
use go_workers.Storage.Refinement.{jobs}
use go_workers.Storage.RedisStore.Sorted.{
  take_due, dequeue_scheduled_message, dequeue_retried_message,
}

-- What is found is there.
pub contains-first_due :
    {Score : Type 0} (above : Score → Score → Bool) (max : Score) (zs : List (Score × String))
    (m : String)
    → first_due above max zs ≡ some m
    → contains m (members zs) ≡ true
contains-first_due above max [] m e = cc
contains-first_due above max ((s, x) ∷ zs) m e =
    ground (arith, contains-first_due above max zs m, eq_refl m)

abbrev found : Option String → List String
found none = []
found (some m) = m ∷ []

module _ {p : Platform} (s : RedisStore p) (d : Documented s.client) where
  -- What the two commands do together.
  abbrev took : String → List String → Keyspace p.Float → Outcome String × Keyspace p.Float
  took key [] v = (err no_message, v)
  took key (m ∷ _) v =
      if contains m (members (v.zsets key))
      then (ok m, record v { zsets = at v.zsets key (without_member m (v.zsets key)) })
      else (err no_message, v)

  abbrev removed_one : String → Outcome ℕ → Outcome String
  removed_one m (ok n) = if n == 0 then err no_message else ok m
  removed_one m (err e) = err e
  removed_one m (Outcome.panic e) = Outcome.panic e
  removed_one m Outcome.spin = Outcome.spin

  take_due-Acts : (key : String) (ms : List String) → Acts d.view (took key ms) (take_due s key ms)
  unfolding take_due
  take_due-Acts key [] = λ w. inl (refl, refl)
  take_due-Acts key (m ∷ ms) =
      Acts-rename d.view (λ v. v) (removed_one m) (drop_member key m) (took key (m ∷ ms))
        (λ w. ground arith) (λ e h. refl)
        (λ v. elim (Bool-cases (contains m (members (v.zsets key)))) [
          | inl e ↦ rw (e, drop_member)
          | inr e ↦ rw (e, drop_member)
        ])
        (d.zrem_doc key m)

  abbrev due : String → p.Float → Keyspace p.Float → List String
  due key max v = found (first_due (λ a b. p.ltf b a) max (v.zsets key))

  find_due-Acts :
      (key : String) (max : p.Float)
      → Acts d.view
          (λ v. (ok (due key max v), v))
          (s.client.zrangebyscore key "-inf" (p.format_float max) 0 1)
  find_due-Acts key max =
      Acts-rename d.view (λ v. v) (λ o. o) (find_due p.ltf key max) (λ v. (ok (due key max v), v))
        (λ w. refl) (λ e h. refl)
        (λ v. elim (Option-cases (first_due (λ a b. p.ltf b a) max (v.zsets key))) [
          | inl e ↦ rw (e, find_due)
          | inr (m, e) ↦ rw (e, find_due)
        ])
        (d.zrangebyscore_doc key max)

  pub dequeue_scheduled_message-Acts :
      (max : p.Float) → Acts (jobs s d) (take_scheduled p.ltf max) (dequeue_scheduled_message s max)
  unfolding dequeue_scheduled_message
  dequeue_scheduled_message-Acts max =
      let key = s.namespace <> scheduled_jobs_key in
      Acts-rename d.view (jobs_of s.namespace) (λ o. o) (λ v. took key (due key max v) v)
        (take_scheduled p.ltf max) (λ w. refl) (λ e h. refl)
        (λ v. elim (Option-cases (first_due (λ a b. p.ltf b a) max (v.zsets key))) [
          | inl e ↦ rw (e, take_scheduled)
          | inr (m, e) ↦ rw (
            e,
            take_scheduled,
            contains-first_due _ max (v.zsets key) m e,
            eq_refl key,
            scheduled-ne-retry_key s.namespace,
          )
        ])
        (Acts-then d.view (due key max) (took key) _ (take_due s key) (find_due-Acts key max)
          (take_due-Acts key))

  pub dequeue_retried_message-Acts :
      (max : p.Float) → Acts (jobs s d) (take_retried p.ltf max) (dequeue_retried_message s max)
  unfolding dequeue_retried_message
  dequeue_retried_message-Acts max =
      let key = s.namespace <> retry_key in
      Acts-rename d.view (jobs_of s.namespace) (λ o. o) (λ v. took key (due key max v) v)
        (take_retried p.ltf max) (λ w. refl) (λ e h. refl)
        (λ v. elim (Option-cases (first_due (λ a b. p.ltf b a) max (v.zsets key))) [
          | inl e ↦ rw (e, take_retried)
          | inr (m, e) ↦ rw (
            e,
            take_retried,
            contains-first_due _ max (v.zsets key) m e,
            eq_refl key,
            retry_key-ne-scheduled s.namespace,
          )
        ])
        (Acts-then d.view (due key max) (took key) _ (take_due s key) (find_due-Acts key max)
          (take_due-Acts key))
