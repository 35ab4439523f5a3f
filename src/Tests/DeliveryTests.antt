-- ===== src/Tests/DeliveryTests.antt =====
-- The theorem on a worker that works off its queue, at one with two messages waiting.
use go_workers.Prelude.{
  ◌≡◌, refl, ap, sym, ◌∙◌, String, none, some, List, [], ◌∷◌, Option-cases, inl, inr, str_eq,
  if◌then◌else◌, arith,
}
use go_workers.Effect.{no_message, ok, err, Done}
use go_workers.External.Keyspace.{split_last}
use go_workers.Storage.Instance.{redis_store-StoreLaws}
use go_workers.Storage.Refinement.{jobs}
use go_workers.Storage.Moved.{pop_none}
use go_workers.Storage.Keys.{get_queue_name}
use go_workers.Storage.Spec.{take_oldest}
use go_workers.Storage.RedisStore.Queues.{dequeue_message}
use go_workers.Msg.{new_msg}
use go_workers.Worker.{in_progress_queue, process_message}
use go_workers.Worker.System.{Runner, Fetching, Polling, Swap}
use go_workers.Worker.System.Waiting.{Cooperative}
use go_workers.Worker.System.Shutdown.{Moves}
use go_workers.Worker.System.Delivery.{empties_queue}
use go_workers.Tests.Instances.{Memory, in_memory-Documented}
use go_workers.Tests.StorageTests.{stored, busy_memory}
use go_workers.Tests.RetryTests.{surroundings}
use go_workers.Tests.SystemTests.{fetcher, succeeds, from_start, WorkerState, message}

abbrev waiting_memory : Memory
waiting_memory = record busy_memory {
  lists = λ k. if str_eq k "app:queue:q" then "new" ∷ "old" ∷ [] else [];
}

abbrev serving : WorkerState
serving = record from_start {
  world = waiting_memory;
  fetch = Fetching.serving;
  poll = Polling.checking;
}

answers_none :
    (r : String) (w : Memory)
    → split_last (w.lists "app:queue:q") ≡ none
    → (dequeue_message stored "q" r 1 w).0 ≡ err no_message
unfolding dequeue_message get_queue_name
answers_none r w e = ground (arith, e)

answers_some :
    (r raw : String) (rest : List String) (w : Memory)
    → split_last (w.lists "app:queue:q") ≡ some (rest, raw)
    → (dequeue_message stored "q" r 1 w).0 ≡ ok raw
unfolding dequeue_message get_queue_name
answers_some r raw rest w e = ground (arith, e)

answers :
    (r : String) (w : Memory)
    → Done (jobs stored in_memory-Documented) (take_oldest "q" r) (dequeue_message stored "q" r 1) w
unfolding get_queue_name
answers r w = elim ((redis_store-StoreLaws stored in_memory-Documented).0.dequeue "q" r 1 w) [
  | inl d ↦ d
  | inr (e, o, h, v) ↦ elim (Option-cases (split_last (w.lists "app:queue:q"))) [
    | inr ((rest, raw), n) ↦ cc (o, answers_some r raw rest w n)
    | inl n ↦
        let path = pop_none "q" r (jobs stored in_memory-Documented w) no_message n in
        (
          answers_none r w n ∙ sym (ap (λ z. z.0) path),
          elim v [ inl same ↦ same ∙ sym (ap (λ z. z.1) path) | inr taken ↦ taken ],
        )
  ]
]

cooperative : Cooperative surroundings succeeds fetcher (jobs stored in_memory-Documented)
unfolding process_message in_progress_queue
cooperative = record {
  answers = λ w. answers (in_progress_queue fetcher) w;
  returns = λ fr h. cc h;
  leaves = λ fr. refl;
  quiet = λ words w. refl;
  still = λ w. refl;
}

empties_queue_example :
    (t : WorkerState) × Moves succeeds fetcher serving t
    × (t.runners ≡ Runner.idle ∷ [])
    × ((jobs stored in_memory-Documented t.world).queues "q" ≡ [])
unfolding new_msg get_queue_name
empties_queue_example =
    empties_queue surroundings succeeds fetcher (jobs stored in_memory-Documented)
      (redis_store-StoreLaws stored in_memory-Documented).0 cooperative serving (Runner.idle ∷ [])
      refl refl refl refl ((message "new", refl), ((message "old", refl), tt)) Swap.here
