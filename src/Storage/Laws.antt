-- ===== src/Storage/Laws.antt =====
-- The contract of a store, for the parts of the program that use one: an operation on jobs does
-- what Spec.antt says, or reports an error with the operation done or not done.
use go_workers.Prelude.{ℕ, String, Bool}
use go_workers.Effect.{Acts}
use go_workers.Storage.Types.{Store}
use go_workers.Storage.Spec.{
  Jobs, now, take_oldest, acknowledged, listed, created, scheduled_at, retried_at, take_scheduled,
  take_retried, retries_listed,
}

pub record StoreLaws {Score W : Type 0} (lt : Score → Score → Bool) (s : Store Score W)
    (jobs : W → Jobs Score) : Type 0 where
  pub enqueue_now : (q m : String) → Acts jobs (now q m) (s.enqueue_message_now q m)
  pub dequeue : (q r : String) (t : ℕ) → Acts jobs (take_oldest q r) (s.dequeue_message q r t)
  pub acknowledge : (q m : String) → Acts jobs (acknowledged q m) (s.acknowledge_message q m)
  pub list : (q : String) → Acts jobs (listed q) (s.list_messages q)
  pub create : (q : String) → Acts jobs (created q) (s.create_queue q)
  pub schedule :
      (t : Score) (m : String) → Acts jobs (scheduled_at lt t m) (s.enqueue_scheduled_message t m)
  pub retry :
      (t : Score) (m : String) → Acts jobs (retried_at lt t m) (s.enqueue_retried_message t m)
  pub due_scheduled : (t : Score) → Acts jobs (take_scheduled lt t) (s.dequeue_scheduled_message t)
  pub due_retried : (t : Score) → Acts jobs (take_retried lt t) (s.dequeue_retried_message t)
  pub all_retries : Acts jobs retries_listed s.get_all_retries
