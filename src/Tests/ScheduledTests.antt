-- ===== src/Tests/ScheduledTests.antt =====
-- The theorems on scheduled.go and producer.go at a server in memory.
use go_workers.Prelude.{
  ◌<◌, ◌≡◌, refl, ap, sym, subst, ◌∙◌, String, none, some, [], ◌∷◌, arith, inl, inr, ◌⊎◌, str_eq,
  if◌then◌else◌, length, Bool-cases, Option-cases, Option, List, ◌==◌,
}
use go_workers.Prelude.Int.{ℤ, pos, ltb_ℤ}
use go_workers.Effect.{Error, error, no_message, ok, err, Outcome, Done, pure, fail}
use go_workers.Storage.Instance.{redis_store-StoreLaws}
use go_workers.Storage.Refinement.{jobs}
use go_workers.Scheduled.{poll, run}
use go_workers.Scheduled.Forward.{Returned}
use go_workers.Scheduled.Ends.{run_ends}
use go_workers.Scheduled.Empties.{Emptied, nothing_due}
use go_workers.Storage.Due.{contains-first_due}
use go_workers.Storage.Spec.{Jobs, take_scheduled, take_retried}
use go_workers.Storage.RedisStore.Sorted.{
  take_due, dequeue_scheduled_message, dequeue_retried_message,
}
use go_workers.External.Keyspace.{first_due, find_due, drop_member, at, without_member}
use go_workers.Effect.Inverse.{bind_ok}
use go_workers.Random.{generate_jid}
use go_workers.Producer.{Writer, default_options}
use go_workers.Producer.Placed.{result, placed, Refused, enqueue_places}
use go_workers.Tests.Instances.{
  tiny, Memory, in_memory-Documented, job, again, Document, format, parse, parse-format,
}
use go_workers.Tests.StorageTests.{stored}
use go_workers.Tests.RetryTests.{surroundings}

-- Two retries are due, and one of them is no document.
abbrev due_memory : Memory
due_memory = record {
  lists = λ k. [];
  zsets = λ k. if str_eq k "app:goretry" then (pos 2, "job") ∷ (pos 3, "bad") ∷ [] else [];
  sets = λ k. [];
  counters = λ k. none;
  hashes = λ k. [];
}

reads :
    (s : String)
    → ((j : Document) × (tiny.new_json s ≡ ok j)) ⊎ ((e : Error) × (tiny.new_json s ≡ err e))
reads s = elim (Bool-cases (str_eq s "bad")) [
  | inl e ↦ inr (error "invalid JSON", ground arith)
  | inr e ↦ elim (Bool-cases (str_eq s "again")) [
    | inl a ↦ inl (again, ground arith)
    | inr a ↦ inl (job, ground arith)
  ]
]

no_scheduled : length (jobs stored in_memory-Documented due_memory).scheduled < 5
no_scheduled = omega arith

two_retries : length (jobs stored in_memory-Documented due_memory).retries < 5
two_retries = omega arith

run_ends_example : Returned surroundings "app:" (run surroundings "app:" 3 5 due_memory).0
run_ends_example =
    run_ends surroundings "app:" (jobs stored in_memory-Documented)
      (redis_store-StoreLaws stored in_memory-Documented).0 (λ w. refl) reads 3 5 due_memory
      no_scheduled two_retries

abbrev writer : Writer surroundings ℤ
writer = record {
  marshal = λ j. ok "job";
  random = record { read = λ n w. (ok [], w); hex = λ bytes. "0123"; intn = λ n w. (3, w) };
}

enqueue_places_example :
    (((result surroundings writer "q" "Add"
          (pos 1)
          (default_options {p = tiny} (pos 9))
          due_memory).0
        ≡ ok ("0123", none))
      × (jobs stored in_memory-Documented
            (result surroundings writer "q" "Add"
              (pos 1)
              (default_options {p = tiny} (pos 9))
              due_memory).1
          ≡ placed surroundings writer "q" "Add"
              (pos 1)
              (default_options {p = tiny} (pos 9))
              due_memory
              "job"
              (jobs stored in_memory-Documented due_memory)))
    ⊎ ((e : Error) × Refused surroundings writer "q" "Add"
          (pos 1)
          (default_options {p = tiny} (pos 9))
          due_memory
          "job"
          e)
unfolding generate_jid
enqueue_places_example =
    enqueue_places surroundings writer "q" "Add" (pos 1) (default_options {p = tiny} (pos 9))
      due_memory (jobs stored in_memory-Documented)
      (redis_store-StoreLaws stored in_memory-Documented).0 refl "job" refl

abbrev due : ℤ → List (ℤ × String) → Option String
due = first_due (λ s t. ltb_ℤ t s)

-- What the server in memory answers.
answers_none :
    (key : String) (max : ℤ) (v : Memory)
    → due max (v.zsets key) ≡ none
    → find_due ltb_ℤ key (parse (format max)) v ≡ (ok [], v)
answers_none key max v e =
    ap (λ (m : ℤ). find_due ltb_ℤ key m v) (parse-format max) ∙ rw (e, find_due) refl

answers_some :
    (key : String) (max : ℤ) (v : Memory) (m : String)
    → due max (v.zsets key) ≡ some m
    → find_due ltb_ℤ key (parse (format max)) v ≡ (ok (m ∷ []), v)
answers_some key max v m e =
    ap (λ (k : ℤ). find_due ltb_ℤ key k v) (parse-format max) ∙ rw (e, find_due) refl

removes :
    (key : String) (max : ℤ) (v : Memory) (m : String)
    → due max (v.zsets key) ≡ some m
    → take_due stored key (m ∷ []) v
      ≡ (ok m, record v { zsets = at v.zsets key (without_member m (v.zsets key)) })
unfolding take_due
removes key max v m e =
    let there = contains-first_due (λ s t. ltb_ℤ t s) max (v.zsets key) m e in
    bind_ok (drop_member key m) (λ n. if n == 0 then fail no_message else pure m) v
      (record v { zsets = at v.zsets key (without_member m (v.zsets key)) }) 1
      (rw (there, drop_member) refl)

abbrev Does : (Jobs ℤ → Outcome String × Jobs ℤ) → Memory → Outcome String × Memory → Type 0
Does take v r =
    (r.0 ≡ (take (jobs stored in_memory-Documented v)).0)
    × (jobs stored in_memory-Documented r.1 ≡ (take (jobs stored in_memory-Documented v)).1)

does_scheduled :
    (max : ℤ) (v : Memory)
    → Done
        (jobs stored in_memory-Documented)
        (take_scheduled ltb_ℤ max)
        (surroundings.store.dequeue_scheduled_message max)
        v
unfolding dequeue_scheduled_message
does_scheduled max v = elim (Option-cases (due max (v.zsets "app:schedule"))) [
  | inl e ↦
      let path =
        bind_ok (find_due ltb_ℤ "app:schedule" (parse (format max)))
          (take_due stored "app:schedule") v v [] (answers_none "app:schedule" max v e) in
      subst (Does (take_scheduled ltb_ℤ max) v) (sym path) (rw (e, take_scheduled) (refl, refl))
  | inr (m, e) ↦
      let path =
        bind_ok (find_due ltb_ℤ "app:schedule" (parse (format max)))
          (take_due stored "app:schedule") v v (m ∷ []) (answers_some "app:schedule" max v m e) in
      subst (Does (take_scheduled ltb_ℤ max) v) (sym (path ∙ removes "app:schedule" max v m e))
        (rw (e, take_scheduled) (refl, refl))
]

does_retried :
    (max : ℤ) (v : Memory)
    → Done
        (jobs stored in_memory-Documented)
        (take_retried ltb_ℤ max)
        (surroundings.store.dequeue_retried_message max)
        v
unfolding dequeue_retried_message
does_retried max v = elim (Option-cases (due max (v.zsets "app:goretry"))) [
  | inl e ↦
      let path =
        bind_ok (find_due ltb_ℤ "app:goretry" (parse (format max))) (take_due stored "app:goretry")
          v v [] (answers_none "app:goretry" max v e) in
      subst (Does (take_retried ltb_ℤ max) v) (sym path) (rw (e, take_retried) (refl, refl))
  | inr (m, e) ↦
      let path =
        bind_ok (find_due ltb_ℤ "app:goretry" (parse (format max))) (take_due stored "app:goretry")
          v v (m ∷ []) (answers_some "app:goretry" max v m e) in
      subst (Does (take_retried ltb_ℤ max) v) (sym (path ∙ removes "app:goretry" max v m e))
        (rw (e, take_retried) (refl, refl))
]

nothing_due_example :
    Emptied surroundings "app:"
      (jobs stored in_memory-Documented)
      (redis_store-StoreLaws stored in_memory-Documented).0
      (λ w. refl)
      reads
      due_memory
      (poll surroundings "app:" 5 due_memory)
nothing_due_example =
    nothing_due surroundings "app:" (jobs stored in_memory-Documented)
      (redis_store-StoreLaws stored in_memory-Documented).0 (λ w. refl) reads 5 due_memory
      does_scheduled does_retried no_scheduled two_retries
