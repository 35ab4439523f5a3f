-- ===== src/Storage/Spec.antt =====
-- What a store promises of the jobs in it: queues as lists (new messages enter at the front and
-- leave at the back), and the scheduled and the retried messages in the order of their times.
use go_workers.Prelude.{String, ◌<>◌, Bool, none, some, List, ◌∷◌, length, if◌then◌else◌}
use go_workers.Prelude.Int.{pos}
use go_workers.Effect.{Error, no_message, Outcome, ok, err}
use go_workers.External.Keyspace.{
  Keyspace, at, split_last, remove_last, contains, without_member, first_due, insert_member,
  members,
}
use go_workers.Storage.Types.{Retries, retry_key, scheduled_jobs_key}
use go_workers.Storage.Keys.{get_queue_name}

pub record Jobs (Score : Type 0) : Type 0 where
  pub queues : String → List String
  pub scheduled : List (Score × String)
  pub retries : List (Score × String)
  pub known : List String

module _ {Score : Type 0} where
  -- The jobs of a namespace in a database.
  abbrev pub jobs_of : String → Keyspace Score → Jobs Score
  jobs_of ns d = record {
    queues = λ q. d.lists (get_queue_name ns q);
    scheduled = d.zsets (ns <> scheduled_jobs_key);
    retries = d.zsets (ns <> retry_key);
    known = d.sets (ns <> "queues");
  }

  abbrev pub now : (queue message : String) → Jobs Score → Outcome (Unit {0}) × Jobs Score
  now q m j = (ok tt, record j { queues = at j.queues q (m ∷ j.queues q) })

  -- The oldest message of `q` becomes the newest of `r`.
  abbrev pub pop_oldest : Error → (q r : String) → Jobs Score → Outcome String × Jobs Score
  pop_oldest e q r j = elim (split_last (j.queues q)) [
    | none ↦ (err e, j)
    | some (rest, m) ↦
        (ok m, let left = at j.queues q rest in record j { queues = at left r (m ∷ left r) })
  ]

  abbrev pub take_oldest : (q r : String) → Jobs Score → Outcome String × Jobs Score
  take_oldest = pop_oldest no_message

  abbrev pub acknowledged : (queue message : String) → Jobs Score → Outcome (Unit {0}) × Jobs Score
  acknowledged q m j = elim (remove_last m (j.queues q)) [
    | none ↦ (ok tt, j)
    | some rest ↦ (ok tt, record j { queues = at j.queues q rest })
  ]

  abbrev pub listed : (queue : String) → Jobs Score → Outcome (List String) × Jobs Score
  listed q j = (ok (j.queues q), j)

  abbrev pub retries_listed : Jobs Score → Outcome Retries × Jobs Score
  retries_listed j = (
    ok (record { retry_jobs = members j.retries; total_retry_count = pos (length j.retries) }),
    j,
  )

  abbrev pub created : (queue : String) → Jobs Score → Outcome (Unit {0}) × Jobs Score
  created q j = (ok tt, if contains q j.known then j else record j { known = q ∷ j.known })

  module _ (lt : Score → Score → Bool) where
    abbrev pub insert : Score → String → List (Score × String) → List (Score × String)
    insert s m zs = insert_member lt s m (without_member m zs)

    abbrev pub scheduled_at : Score → String → Jobs Score → Outcome (Unit {0}) × Jobs Score
    scheduled_at s m j = (ok tt, record j { scheduled = insert s m j.scheduled })

    abbrev pub retried_at : Score → String → Jobs Score → Outcome (Unit {0}) × Jobs Score
    retried_at s m j = (ok tt, record j { retries = insert s m j.retries })

    abbrev pub take_scheduled : Score → Jobs Score → Outcome String × Jobs Score
    take_scheduled max j = elim (first_due (λ s t. lt t s) max j.scheduled) [
      | none ↦ (err no_message, j)
      | some m ↦ (ok m, record j { scheduled = without_member m j.scheduled })
    ]

    abbrev pub take_retried : Score → Jobs Score → Outcome String × Jobs Score
    take_retried max j = elim (first_due (λ s t. lt t s) max j.retries) [
      | none ↦ (err no_message, j)
      | some m ↦ (ok m, record j { retries = without_member m j.retries })
    ]
