-- ===== src/Worker/System/Waiting.antt =====
-- What the work on a message does to the queue of a worker (worker.go, fetcher.go, task_runner.go).
use go_workers.Prelude.{
  ◌≡◌, All, ◌≢◌, refl, sym, ap, ◌∙◌, String, some, List, [], ◌∷◌, ◌++◌, inl, inr, arith,
  Option-cases, Bool-cases, eq_iff, if◌then◌else◌,
}
use go_workers.Effect.{no_message, Outcome, ok, err, panic, spin, Done}
use go_workers.External.Platform.{Platform}
use go_workers.External.Keyspace.{split_last, remove_last}
use go_workers.Storage.Laws.{StoreLaws}
use go_workers.Storage.Moved.{pop_some, left-popped}
use go_workers.Storage.Spec.{Jobs, acknowledged, take_oldest}
use go_workers.Msg.{Msg, new_msg}
use go_workers.Job.{Env, Frame, JobFunc}
use go_workers.Worker.{
  SimpleFetcher, in_progress_queue, send_message, try_fetch_message, acknowledge, begin,
  process_message, logged,
}
use go_workers.Worker.Held.{deq, fetch_value}
use go_workers.Worker.Effects.{queue-ne-in_progress, process_frame, acknowledge_world, not_spin}

pub All-append :
    {A : Type 0} (P : A → Type 0) (xs ys : List A) → All P (xs ++ ys) → All P xs × All P ys
All-append P [] ys a = (tt, a)
All-append P (x ∷ xs) ys a = let rest = All-append P xs ys a.1 in ((a.0, rest.0), rest.1)

acknowledged-elsewhere :
    {Score : Type 0} (q r m : String) (j : Jobs Score)
    → q ≢ r
    → (acknowledged r m j).1.queues q ≡ j.queues q
acknowledged-elsewhere q r m j apart = elim (Option-cases (remove_last m (j.queues r))) [
  | inl n ↦ rw (n, acknowledged) refl
  | inr (rest, n) ↦ ground (arith, n, eq_iff r q)
]

-- A text that is read as a message
abbrev pub Parses : (p : Platform) → String → Type 0
Parses p raw = (m : Msg p) × (new_msg {p = p} raw ≡ ok m)

-- What a worker needs to work off its queue: the store does what a dequeue asks for, jobs return and
-- leave the queue alone, and so do the clock and the log.
pub record Cooperative {p : Platform} (env : Env p) (handler : JobFunc env) (f : SimpleFetcher)
    (jobs : env.World → Jobs p.Float) : Type 0 where
  pub answers :
      (w : env.World)
      → Done jobs
          (take_oldest f.queue (in_progress_queue f))
          (env.store.dequeue_message f.queue (in_progress_queue f) 1)
          w
  pub returns : (fr : Frame env) → (process_message env handler fr).0 ≢ spin
  pub leaves :
      (fr : Frame env) → (jobs (handler fr).1.world).queues f.queue ≡ (jobs fr.world).queues f.queue
  pub quiet : (words : List String) (w : env.World) → jobs (env.println words w) ≡ jobs w
  pub still : (w : env.World) → jobs (env.now w).1 ≡ jobs w

module _ {p : Platform} (env : Env p) (handler : JobFunc env) (f : SimpleFetcher)
    (jobs : env.World → Jobs p.Float) (laws : StoreLaws p.ltf env.store jobs)
    (c : Cooperative env handler f jobs) where
  abbrev pub waiting : env.World → List String
  waiting w = (jobs w).queues f.queue

  abbrev same_jobs : {w v : env.World} → jobs v ≡ jobs w → waiting v ≡ waiting w
  same_jobs e = ap (λ (j : Jobs p.Float). j.queues f.queue) e

  acknowledge-waiting : (m : Msg p) (w : env.World) → waiting (acknowledge env f m w).1 ≡ waiting w
  acknowledge-waiting m w =
      let r = in_progress_queue f in
      let elsewhere =
        acknowledged-elsewhere f.queue r m.original (jobs w) (queue-ne-in_progress f) in
      elim (laws.acknowledge r m.original w) [
        | inl (o, v) ↦
            ap waiting (
              acknowledge_world env f jobs m w
                (λ h. not_spin env f jobs laws c.quiet m w (sym o ∙ h)))
            ∙ ap (λ (j : Jobs p.Float). j.queues f.queue) v
            ∙ elsewhere
        | inr (e, o, _, inl v) ↦
            ap waiting (acknowledge_world env f jobs m w (λ h. cc (o, h))) ∙ same_jobs v
        | inr (e, o, _, inr v) ↦
            ap waiting (acknowledge_world env f jobs m w (λ h. cc (o, h)))
            ∙ ap (λ (j : Jobs p.Float). j.queues f.queue) v
            ∙ elsewhere
      ]

  logged-waiting : (o : Outcome (Unit {0})) (w : env.World) → waiting (logged env o w) ≡ waiting w
  unfolding logged
  logged-waiting (ok u) w = refl
  logged-waiting (err e) w = same_jobs (c.quiet _ w)
  logged-waiting (panic q) w = refl
  logged-waiting spin w = refl

  -- The message that a runner works on, its end, and the world after its acknowledgement
  abbrev pub ran : Msg p → env.World → Outcome (Unit {0}) × Frame env
  ran m w = process_message env handler (begin env m w)

  abbrev pub settled : Msg p → env.World → env.World
  settled m w =
      let v = logged env (ran m w).0 (ran m w).1.world in
      if (ran m w).1.message.ack then (acknowledge env f (ran m w).1.message v).1 else v

  pub settled-waiting : (m : Msg p) (w : env.World) → waiting (settled m w) ≡ waiting w
  unfolding begin
  settled-waiting m w =
      let fr = begin env m w in
      let v = logged env (ran m w).0 (ran m w).1.world in
      let before : waiting v ≡ waiting w =
        logged-waiting (ran m w).0 (ran m w).1.world
        ∙ ap (λ (z : Frame env). waiting z.world) (process_frame env f jobs handler fr)
        ∙ c.leaves fr
        ∙ same_jobs (c.still w) in
      elim (Bool-cases (ran m w).1.message.ack) [
        | inl e ↦ rw e (acknowledge-waiting (ran m w).1.message v ∙ before)
        | inr e ↦ rw e before
      ]

  pub fetched :
      (w : env.World) (raw : String) (rest : List String)
      → Parses p raw
      → split_last (waiting w) ≡ some (rest, raw)
      → (m : Msg p) × (v : env.World) × (try_fetch_message env f w ≡ (ok (some m), v))
        × (waiting v ≡ rest)
  unfolding send_message in_progress_queue
  fetched w raw rest m e =
      let path = pop_some f.queue (in_progress_queue f) (jobs w) no_message e in
      let d = c.answers w in
      let got = fetch_value env f w raw (d.0 ∙ ap (λ z. z.0) path) in
      (
        m.0,
        (deq env f w).1,
        got ∙ rw (m.1, send_message) refl,
        ap (λ (j : Jobs p.Float). j.queues f.queue) (d.1 ∙ ap (λ z. z.1) path)
            ∙ left-popped {from = f.queue} {to = in_progress_queue f} (jobs w) rest raw
                (queue-ne-in_progress f),
      )
