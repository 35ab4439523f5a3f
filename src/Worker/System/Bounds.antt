-- ===== src/Worker/System/Bounds.antt =====
-- What the steps of a worker do to the count of a text in its queue in progress (worker.go,
-- fetcher.go, task_runner.go).
use go_workers.Prelude.{
  ℕ, ◌+◌, ◌≤◌, ◌≡◌, refl, sym, ap, ◌∙◌, String, none, some, List, ◌∷◌, arith, if◌then◌else◌,
  Bool-cases, inl, inr,
}
use go_workers.Effect.{Outcome, ok, err, panic, spin}
use go_workers.External.Platform.{Platform}
use go_workers.Storage.Laws.{StoreLaws}
use go_workers.Storage.Spec.{Jobs}
use go_workers.Msg.{Msg}
use go_workers.Job.{Env, Frame, JobFunc}
use go_workers.Worker.{
  SimpleFetcher, in_progress_queue, send_message, try_fetch_message, acknowledge, begin,
  process_message, logged,
}
use go_workers.Worker.Held.{send_some}
use go_workers.Worker.Effects.{in_progress, same, acknowledge_takes, send_none, process_frame}
use go_workers.Worker.Effects.Fetched.{fetch_some, fetch_none}
use go_workers.Worker.System.{Runner, Fetching, Polling, System, Swap}
use go_workers.Worker.System.Counts.{
  one, count, fetch_weight, poll_weight, runners_weight, Swap-weight, held,
}

-- What the surroundings of the worker leave to it: the clock and the log do not touch the jobs of
-- the store, and a job neither touches the queue in progress nor replaces its message.
pub record Surroundings {p : Platform} (env : Env p) (handler : JobFunc env) (f : SimpleFetcher)
    (jobs : env.World → Jobs p.Float) : Type 0 where
  pub quiet : (words : List String) (w : env.World) → jobs (env.println words w) ≡ jobs w
  pub still : (w : env.World) → jobs (env.now w).1 ≡ jobs w
  pub untouched :
      (fr : Frame env)
      → (jobs (handler fr).1.world).queues (in_progress_queue f)
        ≡ (jobs fr.world).queues (in_progress_queue f)
  pub same_text : (fr : Frame env) → (handler fr).1.message.original ≡ fr.message.original

module _ {p : Platform} (env : Env p) (handler : JobFunc env) (f : SimpleFetcher)
    (jobs : env.World → Jobs p.Float) (laws : StoreLaws p.ltf env.store jobs)
    (around : Surroundings env handler f jobs) where
  abbrev pub stock : String → env.World → ℕ
  stock x w = count x (in_progress env f jobs w)

  logged-jobs : (o : Outcome (Unit {0})) (w : env.World) → jobs (logged env o w) ≡ jobs w
  unfolding logged
  logged-jobs (ok u) w = refl
  logged-jobs (err e) w = around.quiet _ w
  logged-jobs (panic q) w = refl
  logged-jobs spin w = refl

  -- A job that has run: the queue in progress, and the text of its message.
  pub ran :
      (m : Msg p) (w : env.World) (o : Outcome (Unit {0})) (after : Frame env)
      → process_message env handler (begin env m w) ≡ (o, after)
      → (in_progress env f jobs (logged env o after.world) ≡ in_progress env f jobs w)
        × (after.message.original ≡ m.original)
  unfolding begin
  ran m w o after e =
      let fr = begin env m w in
      let end : (handler fr).1 ≡ after =
        sym (process_frame env f jobs handler fr) ∙ ap (λ z. z.1) e in
      let queue = in_progress_queue f in
      (
        ap (λ (j : Jobs p.Float). j.queues queue) (logged-jobs o after.world)
            ∙ ap (λ (g : Frame env). (jobs g.world).queues queue) (sym end)
            ∙ around.untouched fr
            ∙ ap (λ (j : Jobs p.Float). j.queues queue) (around.still w),
        ap (λ (g : Frame env). g.message.original) (sym end) ∙ around.same_text fr,
      )

  pub finished :
      (m : Msg p) (w : env.World) (x : String)
      → stock x w ≤ stock x (if m.ack then (acknowledge env f m w).1 else w) + one x m.original
  unfolding acknowledge
  finished m w x = elim (Bool-cases m.ack) [
    | inl e ↦ rw e (acknowledge_takes env f jobs laws around.quiet m w x)
    | inr e ↦ rw e (omega arith)
  ]

  pub sent_bound :
      (s : System env) (raw : String) (rest : List String) (m : Msg p) (w : env.World) (x : String)
      → held x s ≤ stock x s.world
      → s.fetch ≡ Fetching.old (raw ∷ rest)
      → send_message env raw s.world ≡ (ok (some m), w)
      → held x (record s { fetch = Fetching.old_sending m rest; world = w }) ≤ stock x w
  sent_bound s raw rest m w x k e l =
      let (text, world) = send_some env f s.world raw s.world m (ap (λ z. z.0) l) in
      omega (
        arith,
        k,
        ap (fetch_weight x) e,
        ap (one x) text,
        ap (stock x) (sym world ∙ ap (λ z. z.1) l),
      )

  pub skipped_bound :
      (s : System env) (raw : String) (rest : List String) (w : env.World) (x : String)
      → held x s ≤ stock x s.world
      → s.fetch ≡ Fetching.old (raw ∷ rest)
      → send_message env raw s.world ≡ (ok none, w)
      → held x (record s { fetch = Fetching.old rest; world = w }) ≤ stock x w
  skipped_bound s raw rest w x k e l =
      let (words, logged) = send_none env f jobs raw s.world (ap (λ z. z.0) l) in
      omega (
        arith,
        k,
        ap (fetch_weight x) e,
        ap (count x) (same env f jobs laws around.quiet (around.quiet words s.world)),
        ap (stock x) (sym logged ∙ ap (λ z. z.1) l),
      )

  pub fetched_bound :
      (s : System env) (m : Msg p) (w : env.World) (x : String)
      → held x s ≤ stock x s.world
      → s.poll ≡ Polling.fetching
      → try_fetch_message env f s.world ≡ (ok (some m), w)
      → held x (record s { poll = Polling.sending m; world = w }) ≤ stock x w
  fetched_bound s m w x k e l = omega (
    arith,
    k,
    ap (poll_weight x) e,
    ap (count x) (fetch_some env f jobs laws around.quiet s.world m (ap (λ z. z.0) l)),
    ap (λ z. stock x z.1) l,
  )

  pub unfetched_bound :
      (s : System env) (w : env.World) (x : String)
      → held x s ≤ stock x s.world
      → s.poll ≡ Polling.fetching
      → try_fetch_message env f s.world ≡ (ok none, w)
      → held x (record s { poll = Polling.checking; world = w }) ≤ stock x w
  unfetched_bound s w x k e l = omega (
    arith,
    k,
    ap (poll_weight x) e,
    fetch_none env f jobs laws around.quiet s.world x (ap (λ z. z.0) l),
    ap (λ z. stock x z.1) l,
  )

  pub work_weight :
      (s : System env) (m : Msg p) (o : Outcome (Unit {0})) (after : Frame env)
      (rs : List (Runner p)) (x : String)
      → process_message env handler (begin env m s.world) ≡ (o, after)
      → Swap (Runner.working m) (Runner.finishing after.message) s.runners rs
      → runners_weight x rs ≡ runners_weight x s.runners
  work_weight s m o after rs x e sw =
      omega (arith, Swap-weight x sw, ap (one x) (ran m s.world o after e).1)
